-- ===== src/Executive/Evaluators.antt =====
-- The priority of an insight: frontend/src/features/executive-intelligence/evaluators/index.ts.
use royale_ai_platform.Prelude.{ℕ, ◌==◌, leb, if◌then◌else◌, length}
use royale_ai_platform.Text.{Text, text, text_eq}
use royale_ai_platform.Numbers.{Numbers, whole}
use royale_ai_platform.Executive.{
  Severity, critical, high, medium, low, info, ExecutiveInsight, Platform,
}

-- `SEVERITY_BASE`
abbrev pub severity_base : Severity → ℕ
severity_base critical = 100
severity_base high = 80
severity_base medium = 60
severity_base low = 40
severity_base info = 20

-- `IMPACT_SCORE[lower] ?? 40`
unfoldable pub impact_score : Text → ℕ
impact_score lower =
    if text_eq lower (text "high")
    then 100
    else (if text_eq lower (text "medium")
        then 60
        else (if text_eq lower (text "low") then 30 else 40))

abbrev pub calculate_affected_domains_score : ℕ → ℕ
calculate_affected_domains_score count =
    if leb 3 count then 100 else (if count == 2 then 80 else 50)

module _ {N : Type 0} (num : Numbers N) (platform : Platform N) where
  open num use {add, sub, mul, div, lt, le, eq, decimal, round, show_number}
  open platform use {to_lower_case, to_locale_string, now_text}

  unfoldable pub estimate_impact_score : Text → ℕ
  estimate_impact_score impact = impact_score (to_lower_case impact)

  unfoldable pub calculate_priority : ExecutiveInsight N → N
  calculate_priority i =
      let confidence_score = round (mul i.confidence (whole num 100)) in
      round (
        add
          (add
            (add (mul (whole num (severity_base i.severity)) (decimal 35 2))
              (mul confidence_score (decimal 25 2)))
            (mul (whole num (estimate_impact_score i.estimated_impact)) (decimal 25 2)))
          (mul (whole num (calculate_affected_domains_score (length i.affected_domains)))
            (decimal 15 2)))
