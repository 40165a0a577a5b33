-- ===== src/Executive/Generating.antt =====
-- `generateInsights` of
-- frontend/src/features/executive-intelligence/services/executive-intelligence-service.ts.
pub mod Best
use royale_ai_platform.Prelude.{
  ℕ, Bool, true, false, Option, none, some, List, [], ◌∷◌, ◌++◌, if◌then◌else◌, sort, map,
}
use royale_ai_platform.Text.{Text, text}
use royale_ai_platform.Text.Table.{Table, table_get, table_set}
use royale_ai_platform.Numbers.{Numbers}
use royale_ai_platform.Executive.{ExecutiveInsight, Input, Platform}
use royale_ai_platform.Executive.Evaluators.{calculate_priority}
use royale_ai_platform.Executive.MarketRules.{
  rule_marketplace_growth_with_stock_pressure, rule_marketplace_healthy,
}
use royale_ai_platform.Executive.StockRules.{rule_idle_capital, rule_urgent_replenishment}

module _ {N : Type 0} where
  abbrev pub insight_key : ExecutiveInsight N → Text
  insight_key i = i.title ++ text "|" ++ i.description

  abbrev pub table_values : Table (ExecutiveInsight N) → List (ExecutiveInsight N)
  table_values [] = []
  table_values ((key, i) ∷ rest) = i ∷ table_values rest

  abbrev pub with_priority : N → ExecutiveInsight N → ExecutiveInsight N
  with_priority priority i = record {
    id = i.id;
    title = i.title;
    description = i.description;
    category = i.category;
    severity = i.severity;
    priority = priority;
    affected_domains = i.affected_domains;
    recommended_action = i.recommended_action;
    estimated_impact = i.estimated_impact;
    confidence = i.confidence;
    reasons = i.reasons;
    created_at = i.created_at;
  }

module _ {N : Type 0} (num : Numbers N) where
  open num use {lt}

  -- `!existing || insight.priority > existing.priority`
  abbrev pub is_better : ExecutiveInsight N → Option (ExecutiveInsight N) → Bool
  is_better i none = true
  is_better i (some existing) = lt existing.priority i.priority

  -- The body of the loop of `deduplicate`, and the loop.
  unfoldable pub dedupe_step :
      ExecutiveInsight N → Table (ExecutiveInsight N) → Table (ExecutiveInsight N)
  dedupe_step i seen =
      if is_better i (table_get (insight_key i) seen)
      then table_set (insight_key i) i seen
      else seen

  unfoldable pub dedupe_loop :
      Table (ExecutiveInsight N) → List (ExecutiveInsight N) → Table (ExecutiveInsight N)
  dedupe_loop seen [] = seen
  dedupe_loop seen (i ∷ rest) = dedupe_loop (dedupe_step i seen) rest

  unfoldable pub deduplicate : List (ExecutiveInsight N) → List (ExecutiveInsight N)
  deduplicate insights = table_values (dedupe_loop [] insights)

  -- `(a, b) => b.priority - a.priority` is positive.
  abbrev pub has_less_priority : ExecutiveInsight N → ExecutiveInsight N → Bool
  has_less_priority a b = lt a.priority b.priority

  module _ (platform : Platform N) where
    abbrev pub rated : ExecutiveInsight N → ExecutiveInsight N
    rated i = with_priority (calculate_priority num platform i) i

    unfoldable pub all_insights : Input N → List (ExecutiveInsight N)
    all_insights input =
        map rated (rule_marketplace_growth_with_stock_pressure num platform input)
        ++ map rated (rule_idle_capital num platform input)
        ++ map rated (rule_urgent_replenishment num platform input)
        ++ map rated (rule_marketplace_healthy num platform input)

    unfoldable pub generate_insights : Input N → List (ExecutiveInsight N)
    generate_insights input = sort has_less_priority (deduplicate (all_insights input))
