-- ===== src/Executive/StockRules.antt =====
-- The rules on idle capital and urgent replenishment: rule-02-idle-capital.ts and
-- rule-03-urgent-replenishment.ts of frontend/src/features/executive-intelligence/rules.
use royale_ai_platform.Prelude.{ℕ, List, [], ◌∷◌, ◌++◌, leb, ltb, if◌then◌else◌}
use royale_ai_platform.Text.{Text, text, show}
use royale_ai_platform.Numbers.{Numbers, whole, min}
use royale_ai_platform.Executive.{
  Severity, critical, high, medium, low, info, inventory, ExecutiveInsight, Input, Platform,
}
use royale_ai_platform.Executive.Plurals.{at_most, plural_s}

-- `severity === "high" ? "high" : severity === "medium" ? "medium" : "low"`
abbrev pub impact_of : Severity → Text
impact_of high = text "high"
impact_of medium = text "medium"
impact_of critical = text "low"
impact_of low = text "low"
impact_of info = text "low"

abbrev pub idle_points : Severity → ℕ
idle_points high = 20
idle_points medium = 10
idle_points critical = 0
idle_points low = 0
idle_points info = 0

module _ {N : Type 0} (num : Numbers N) (platform : Platform N) where
  open num use {add, sub, mul, div, lt, le, eq, decimal, round, show_number}
  open platform use {to_lower_case, to_locale_string, now_text}

  abbrev pub idle_severity : N → Severity
  idle_severity value =
      if le (whole num 100000) value
      then high
      else (if le (whole num 30000) value then medium else low)

  abbrev pub idle_insight : Severity → ℕ → N → ExecutiveInsight N
  idle_insight severity count value = record {
    id = text "idle-capital-elevated";
    title = text "Capital imobilizado em produtos de baixo giro";
    description =
        text "R$ "
        ++ to_locale_string value
        ++ text " em "
        ++ show count
        ++ text " produto"
        ++ plural_s count
        ++ text " com excesso de estoque ou sem giro.";
    category = inventory;
    severity = severity;
    priority =
        min num
          (round (
            add
              (add (mul (whole num (at_most 20 count)) (whole num 3))
                (div (min num value (whole num 500000)) (whole num 5000)))
              (whole num (idle_points severity))))
          (whole num 100);
    affected_domains = text "inventory" ∷ text "financial" ∷ [];
    recommended_action =
        text "Avaliar promoções, liquidações ou devoluções para liberar capital parado.";
    estimated_impact = impact_of severity;
    confidence =
        min num (add (decimal 6 1) (mul (whole num (at_most 20 count)) (decimal 15 3)))
          (decimal 95 2);
    reasons =
        (text "Alerta acionado por limite monetário absoluto: R$ " ++ to_locale_string value)
        ∷ (show count
            ++ text " produto"
            ++ plural_s count
            ++ text " classificados como excedente ou sem giro")
        ∷ [];
    created_at = now_text;
  }

  unfoldable pub rule_idle_capital : Input N → List (ExecutiveInsight N)
  rule_idle_capital input =
      let count = input.stock.idle_capital_product_count in
      let value = input.stock.idle_capital_value in
      if ltb count 3
      then []
      else (if lt value (whole num 10000)
          then []
          else idle_insight (idle_severity value) count value ∷ [])

  abbrev pub urgent_severity : ℕ → Severity
  urgent_severity count = if leb 5 count then critical else high

  abbrev pub urgent_confidence : ℕ → N
  urgent_confidence count =
      min num (add (decimal 7 1) (mul (whole num count) (decimal 5 2))) (decimal 98 2)

  abbrev pub units_s : N → Text
  units_s units = if eq units (whole num 1) then [] else text "s"

  abbrev pub urgent_insight : ℕ → N → ExecutiveInsight N
  urgent_insight count units = record {
    id = text "urgent-replenishment-needed";
    title = text "Produtos críticos aguardando reposição";
    description =
        show count
        ++ text " produto"
        ++ plural_s count
        ++ text " em estado crítico necessita"
        ++ (if ltb 1 count then text "m" else [])
        ++ text " de reposição imediata, totalizando "
        ++ show_number units
        ++ text " unidade"
        ++ units_s units
        ++ text ".";
    category = inventory;
    severity = urgent_severity count;
    priority =
        min num
          (round (
            add
              (add (mul (whole num (at_most 15 count)) (whole num 5))
                (whole num (if leb 5 count then 25 else 15)))
              (round (mul (urgent_confidence count) (whole num 10)))))
          (whole num 100);
    affected_domains = text "inventory" ∷ text "operations" ∷ [];
    recommended_action =
        text "Priorizar a compra dos produtos com reposição crítica para evitar ruptura.";
    estimated_impact = text "Prevenção de ruptura de estoque e perda de vendas.";
    confidence = urgent_confidence count;
    reasons =
        (show count
          ++ text " produto"
          ++ plural_s count
          ++ text " com prioridade crítica de reposição")
        ∷ (show_number units ++ text " unidade" ++ units_s units ++ text " sugeridas para compra")
        ∷ [];
    created_at = now_text;
  }

  unfoldable pub rule_urgent_replenishment : Input N → List (ExecutiveInsight N)
  rule_urgent_replenishment input =
      let count = input.stock.critical_replenishment_count in
      if ltb count 3
      then []
      else urgent_insight count input.stock.total_suggested_purchase_units ∷ []
