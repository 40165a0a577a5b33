-- ===== src/Executive/Prioritization.antt =====
-- `prioritize` of frontend/src/features/executive-prioritization/services, with its strategies and
-- constants. The options are functions of the id; `toLowerCase` is that of the platform.
pub mod Order
use royale_ai_platform.Prelude.{
  ℕ, suc, Bool, true, false, Option, none, some, List, [], ◌∷◌, ◌||◌, if◌then◌else◌, is_empty, sort,
  map,
}
use royale_ai_platform.Text.{Text, text, text_eq}
use royale_ai_platform.Text.Search.{includes_any}
use royale_ai_platform.Text.Table.{Table, table_get, table_set}
use royale_ai_platform.Numbers.{Numbers, whole, max}
use royale_ai_platform.Executive.{
  Severity, critical, high, medium, low, info, Category, ExecutiveInsight, Platform,
}
use royale_ai_platform.Executive.Strategies.{
  Options, or_none, strategy_critical_first, strategy_high_impact, strategy_quick_wins,
  strategy_dependency,
}

pub data Urgency : Type 0 where
  immediate : Urgency
  today : Urgency
  this_week : Urgency
  monitor : Urgency

pub record ExecutivePriority (N : Type 0) : Type 0 where
  pub id : Text
  pub rank : ℕ
  pub title : Text
  pub description : Text
  pub recommended_action : Text
  pub why_now : Text
  pub priority_score : N
  pub urgency : Urgency
  pub estimated_impact : Text
  pub blocked_by : List Text
  pub related_insights : List Text
  pub severity : Severity
  pub reasons : List Text
  pub category : Category

-- An item of `scored`.
pub record Scored (N : Type 0) : Type 0 where
  pub combined_score : N
  pub urgency : Urgency
  pub why_now : Text
  pub insight : ExecutiveInsight N

abbrev pub why_now_template : Urgency → Text
why_now_template immediate = text "Esta ação evita risco operacional imediato."
why_now_template today =
    text "Esta decisão deve ser tomada hoje para evitar impacto no curto prazo."
why_now_template this_week = text "Esta ação pode ser planejada nos próximos dias."
why_now_template monitor = text "Apenas monitorar. Nenhuma ação necessária no momento."

abbrev pub is_severe : Severity → Bool
is_severe critical = true
is_severe high = true
is_severe medium = false
is_severe low = false
is_severe info = false

unfoldable pub determine_why_now : Severity → Urgency → Text
determine_why_now severity immediate = why_now_template immediate
determine_why_now severity today = why_now_template today
determine_why_now severity this_week =
    if is_severe severity then why_now_template today else why_now_template this_week
determine_why_now severity monitor =
    if is_severe severity then why_now_template today else why_now_template monitor

module _ {N : Type 0} (num : Numbers N) where
  open num use {add, sub, mul, div, lt, le, eq, decimal, round}

  unfoldable pub classify_urgency : N → Urgency
  classify_urgency score =
      if le (whole num 80) score
      then immediate
      else (if le (whole num 60) score
          then today
          else (if le (whole num 40) score then this_week else monitor))

  -- `scores.get(id) ?? 0`
  abbrev pub or_zero : Option N → N
  or_zero none = whole num 0
  or_zero (some n) = n

  -- `Math.max(...insights.map((i) => i.priority), 1)`
  abbrev pub max_priority : List (ExecutiveInsight N) → N
  max_priority [] = whole num 1
  max_priority (i ∷ rest) = max num i.priority (max_priority rest)

  -- The comparison of `scored.sort` is positive.
  abbrev pub comes_after : Scored N → Scored N → Bool
  comes_after a b =
      if eq b.combined_score a.combined_score
      then lt a.insight.priority b.insight.priority
      else lt a.combined_score b.combined_score

  -- `scored.map` with the rank of the first.
  unfoldable pub rank_from : Options → ℕ → List (Scored N) → List (ExecutivePriority N)
  rank_from options rank [] = []
  rank_from options rank (item ∷ rest) =
      record {
        id = item.insight.id;
        rank = rank;
        title = item.insight.title;
        description = item.insight.description;
        recommended_action = item.insight.recommended_action;
        why_now = item.why_now;
        priority_score = item.combined_score;
        urgency = item.urgency;
        estimated_impact = item.insight.estimated_impact;
        blocked_by = or_none (options.blocked_by item.insight.id);
        related_insights = or_none (options.related_insights item.insight.id);
        severity = item.insight.severity;
        reasons = item.insight.reasons;
        category = item.insight.category;
      }
      ∷ rank_from options (suc rank) rest

  module _ (platform : Platform N) where
    unfoldable pub combined_score : Options → List (ExecutiveInsight N) → ExecutiveInsight N → N
    combined_score options insights i =
        let priority_norm = div i.priority (max_priority insights) in
        let severity_score = or_zero (table_get i.id (strategy_critical_first num insights)) in
        let impact_score = or_zero (table_get i.id (strategy_high_impact num insights)) in
        let complexity_score =
          or_zero (table_get i.id (strategy_quick_wins num platform options insights)) in
        let dep_score = or_zero (table_get i.id (strategy_dependency num options insights)) in
        round (
          add
            (add
              (add
                (add (mul (mul priority_norm (decimal 30 2)) (whole num 100))
                  (mul (mul severity_score (decimal 25 2)) (whole num 100)))
                (mul (mul impact_score (decimal 20 2)) (whole num 100)))
              (mul (mul (sub (whole num 1) complexity_score) (decimal 15 2)) (whole num 100)))
            (mul dep_score (decimal 10 2)))

    unfoldable pub score_one : Options → List (ExecutiveInsight N) → ExecutiveInsight N → Scored N
    score_one options insights i =
        let score = combined_score options insights i in
        record {
          combined_score = score;
          urgency = classify_urgency score;
          why_now = determine_why_now i.severity (classify_urgency score);
          insight = i;
        }

    unfoldable pub prioritize : Options → List (ExecutiveInsight N) → List (ExecutivePriority N)
    prioritize options insights =
        rank_from options 1 (sort comes_after (map (score_one options insights) insights))
