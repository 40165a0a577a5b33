-- ===== src/Executive/MarketRules.antt =====
-- The rules on marketplaces: rule-01-high-demand-stockout-risk.ts and rule-04-marketplace-healthy.ts
-- of frontend/src/features/executive-intelligence/rules.
use royale_ai_platform.Prelude.{
  ℕ, ◌+◌, Option, none, some, List, [], ◌∷◌, ◌++◌, ◌==◌, ltb, if◌then◌else◌,
}
use royale_ai_platform.Text.{text, show}
use royale_ai_platform.Numbers.{Numbers, whole, min}
use royale_ai_platform.Executive.{
  high, info, inventory, marketplace, ExecutiveInsight, Input, Platform,
}
use royale_ai_platform.Executive.Plurals.{at_most, plural_s, other_s}

module _ {N : Type 0} (num : Numbers N) (platform : Platform N) where
  open num use {add, sub, mul, div, lt, le, eq, decimal, round, show_number}
  open platform use {to_lower_case, to_locale_string, now_text}

  abbrev pub growth_insight : N → ℕ → ExecutiveInsight N
  growth_insight growth affected = record {
    id = text "marketplace-growth-stock-pressure";
    title = text "Crescimento de vendas com pressão sobre o estoque";
    description =
        text "O marketplace apresenta crescimento de "
        ++ show_number growth
        ++ text "% enquanto existem "
        ++ show affected
        ++ text " produto"
        ++ plural_s affected
        ++ text " com reposição crítica.";
    category = inventory;
    severity = high;
    priority =
        min num
          (round (
            add (mul (div growth (whole num 100)) (whole num 40))
              (mul (whole num (at_most 10 affected)) (whole num 6))))
          (whole num 100);
    affected_domains = text "inventory" ∷ text "marketplace" ∷ [];
    recommended_action =
        text
          "Priorizar a análise dos produtos críticos para verificar quais podem limitar o crescimento das vendas.";
    estimated_impact = text "medium";
    confidence = min num (add (decimal 5 1) (div growth (whole num 200))) (decimal 95 2);
    reasons =
        (text "Crescimento consolidado do marketplace acima do limite: "
          ++ show_number growth
          ++ text "%")
        ∷ (text "Produtos classificados com reposição crítica: " ++ show affected)
        ∷ [];
    created_at = now_text;
  }

  abbrev pub growth_rule : ℕ → Option N → List (ExecutiveInsight N)
  growth_rule affected none = []
  growth_rule affected (some growth) =
      if lt growth (whole num 15)
      then []
      else (if affected == 0 then [] else growth_insight growth affected ∷ [])

  unfoldable pub rule_marketplace_growth_with_stock_pressure : Input N → List (ExecutiveInsight N)
  rule_marketplace_growth_with_stock_pressure input =
      growth_rule input.stock.critical_replenishment_count input.market.highest_growth

  abbrev pub healthy_insight : ℕ → N → ExecutiveInsight N
  healthy_insight risk health = record {
    id = text "marketplace-healthy-outlook";
    title = text "Saúde do marketplace e estoque equilibrados";
    description =
        text "O marketplace apresenta saúde média de "
        ++ show_number health
        ++ text "% com baixo risco de ruptura ("
        ++ show risk
        ++ text " produto"
        ++ other_s risk
        ++ text ").";
    category = marketplace;
    severity = info;
    priority =
        min num
          (round (
            add
              (add (mul (div health (whole num 100)) (whole num 30))
                (mul (sub (whole num 1) (div (whole num risk) (whole num 10))) (whole num 20)))
              (whole num 10)))
          (whole num 100);
    affected_domains = text "marketplace" ∷ text "inventory" ∷ [];
    recommended_action = text "Manter as estratégias atuais de reposição e monitoramento.";
    estimated_impact = text "Operação equilibrada com baixo risco de desabastecimento.";
    confidence = min num (add (decimal 6 1) (div health (whole num 200))) (decimal 95 2);
    reasons =
        (text "Saúde média do marketplace: " ++ show_number health ++ text "%")
        ∷ (text "Rupturas e riscos: " ++ show risk ++ text " produto" ++ other_s risk)
        ∷ [];
    created_at = now_text;
  }

  unfoldable pub rule_marketplace_healthy : Input N → List (ExecutiveInsight N)
  rule_marketplace_healthy input =
      let health = input.market.average_health in
      let risk = input.stock.out_of_stock_count + input.stock.stockout_risk_count in
      if lt health (whole num 80)
      then []
      else (if ltb 2 risk then [] else healthy_insight risk health ∷ [])
