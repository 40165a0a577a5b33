-- ===== src/Executive/Strategies.antt =====
-- The strategies of frontend/src/features/executive-prioritization/strategies, with the constants
-- that they use.
use royale_ai_platform.Prelude.{ℕ, Option, none, some, List, [], ◌∷◌, if◌then◌else◌, is_empty}
use royale_ai_platform.Text.{Text, text, text_eq}
use royale_ai_platform.Text.Search.{includes_any}
use royale_ai_platform.Text.Table.{Table, table_set}
use royale_ai_platform.Numbers.{Numbers, whole}
use royale_ai_platform.Executive.{
  Severity, critical, high, medium, low, info, ExecutiveInsight, Platform,
}

pub data Complexity : Type 0 where
  easy : Complexity
  middling : Complexity
  complex : Complexity

-- `options`; the ids that it does not name give `none`.
pub record Options : Type 0 where
  pub complexity_overrides : Text → Option Complexity
  pub blocked_by : Text → Option (List Text)
  pub related_insights : Text → Option (List Text)

abbrev pub severity_bonus : Severity → ℕ
severity_bonus critical = 100
severity_bonus high = 75
severity_bonus medium = 50
severity_bonus low = 25
severity_bonus info = 0

-- `IMPACT_BONUS[impact] ?? IMPACT_BONUS.low`
unfoldable pub impact_bonus : Text → ℕ
impact_bonus impact =
    if text_eq impact (text "high")
    then 100
    else (if text_eq impact (text "medium") then 60 else 30)

abbrev pub complexity_penalty : Complexity → ℕ
complexity_penalty easy = 0
complexity_penalty middling = 15
complexity_penalty complex = 30

-- `classifyComplexity` on the action in lower case; `i` changes nothing there.
unfoldable pub complexity_of : Text → Complexity
complexity_of action =
    if includes_any (text "priorizar a compra" ∷ text "comprar" ∷ text "adquirir" ∷ []) action
    then easy
    else (if includes_any (text "avaliar" ∷ text "revisar" ∷ text "analisar" ∷ text "validar" ∷ [])
          action
        then middling
        else (if includes_any
              (text "implementar" ∷ text "criar" ∷ text "desenvolver" ∷ text "configurar" ∷ [])
              action
            then complex
            else middling))

abbrev pub or_complexity : Option Complexity → Complexity → Complexity
or_complexity none c = c
or_complexity (some c) other = c

abbrev pub or_none : Option (List Text) → List Text
or_none none = []
or_none (some ids) = ids

module _ {N : Type 0} (num : Numbers N) where
  open num use {add, sub, mul, div, lt, le, eq, decimal, round}

  -- The loop of a strategy: the score of each insight under its id.
  unfoldable pub strategy_loop :
      (ExecutiveInsight N → N) → Table N → List (ExecutiveInsight N) → Table N
  strategy_loop score scores [] = scores
  strategy_loop score scores (i ∷ rest) = strategy_loop score (table_set i.id (score i) scores) rest

  unfoldable pub strategy_critical_first : List (ExecutiveInsight N) → Table N
  strategy_critical_first insights =
      strategy_loop (λ i. div (whole num (severity_bonus i.severity)) (whole num 100)) [] insights

  unfoldable pub strategy_high_impact : List (ExecutiveInsight N) → Table N
  strategy_high_impact insights =
      strategy_loop (λ i. div (whole num (impact_bonus i.estimated_impact)) (whole num 100)) []
        insights

  unfoldable pub strategy_dependency : Options → List (ExecutiveInsight N) → Table N
  strategy_dependency options insights =
      strategy_loop
        (λ i. if is_empty (or_none (options.blocked_by i.id)) then whole num 10 else whole num 0) []
        insights

  module _ (platform : Platform N) where
    unfoldable pub strategy_quick_wins : Options → List (ExecutiveInsight N) → Table N
    strategy_quick_wins options insights =
        strategy_loop
          (λ i.
            div
              (whole num (
                complexity_penalty (
                  or_complexity (options.complexity_overrides i.id)
                    (complexity_of (platform.to_lower_case i.recommended_action)))))
              (whole num 30))
          [] insights
