-- ===== src/Sales/Service.antt =====
-- `analyze` of frontend/src/features/sales-intelligence/services/sales-intelligence-service.ts. The
-- summary of the market, which nothing reads, is left out; `to_fixed` is `toFixed`.
use royale_ai_platform.Prelude.{
  ℕ, Bool, true, false, Option, none, some, List, [], ◌∷◌, ◌++◌, ◌&&◌, ltb, ◌==◌, if◌then◌else◌,
  length, filter, map, sort,
}
use royale_ai_platform.Text.{Text, text}
use royale_ai_platform.Text.Table.{Table, table_get, table_set}
use royale_ai_platform.Numbers.{Numbers, whole, sum_from}
use royale_ai_platform.Inventory.{InventoryAnalysis}
use royale_ai_platform.Inventory.Classifiers.{is_inactive}
use royale_ai_platform.Sales.{
  OpportunityType, increase_ads, improve_listing, replenish_stock, review_price, monitor, Priority,
  low, medium, high, critical, ProductPerformance, SalesOpportunity, calculate_conversion_score,
  calculate_stock_availability, calculate_sales_opportunity_score, evaluate_opportunity_type,
  evaluate_priority, evaluate_confidence,
}

pub record SalesSummary (N : Type 0) : Type 0 where
  pub products_analyzed : ℕ
  pub high_opportunities : ℕ
  pub critical_products : ℕ
  pub estimated_revenue_potential : N
  pub estimated_margin_potential : N
  pub average_conversion : N
  pub average_stock_coverage : Option N

pub record Analysis (N : Type 0) : Type 0 where
  pub opportunities : List (SalesOpportunity N)
  pub summary : SalesSummary N

-- `priorityOrder`
abbrev pub priority_order : Priority → ℕ
priority_order critical = 4
priority_order high = 3
priority_order medium = 2
priority_order low = 1

abbrev pub is_critical : Priority → Bool
is_critical critical = true
is_critical high = false
is_critical medium = false
is_critical low = false

abbrev pub is_high : Priority → Bool
is_high critical = true
is_high high = true
is_high medium = false
is_high low = false

abbrev pub build_action : OpportunityType → Text
build_action increase_ads = text "Aumentar investimento em anúncios"
build_action improve_listing = text "Otimizar página do produto"
build_action replenish_stock = text "Reabastecer estoque"
build_action review_price = text "Revisar preço"
build_action monitor = text "Monitorar desempenho"

module _ {N : Type 0} (num : Numbers N) where
  open num use {mul, div, lt, le, eq, decimal, round, show_number}

  -- The loop that fills `inventoryByProductId`.
  unfoldable pub index_from :
      Table (InventoryAnalysis N) → List (InventoryAnalysis N) → Table (InventoryAnalysis N)
  index_from table [] = table
  index_from table (inv ∷ rest) = index_from (table_set inv.base.product_id inv table) rest

  -- The comparison of the sort is positive.
  abbrev pub comes_after : SalesOpportunity N → SalesOpportunity N → Bool
  comes_after a b =
      if priority_order b.priority == priority_order a.priority
      then lt a.confidence b.confidence
      else ltb (priority_order a.priority) (priority_order b.priority)

  abbrev pub coverages : List (SalesOpportunity N) → List N
  coverages [] = []
  coverages (o ∷ rest) = elim o.coverage_days [
    | none ↦ coverages rest
    | some d ↦ d ∷ coverages rest
  ]

  abbrev pub average_coverage : List N → Option N
  average_coverage [] = none
  average_coverage (d ∷ ds) = some (
      div
        (round (
          mul (div (sum_from num (whole num 0) (d ∷ ds)) (whole num (length (d ∷ ds))))
            (whole num 10)))
        (whole num 10))

  unfoldable pub build_summary : List (SalesOpportunity N) → SalesSummary N
  build_summary [] = record {
    products_analyzed = 0;
    high_opportunities = 0;
    critical_products = 0;
    estimated_revenue_potential = whole num 0;
    estimated_margin_potential = whole num 0;
    average_conversion = whole num 0;
    average_stock_coverage = none;
  }
  build_summary (o ∷ rest) =
      let all = o ∷ rest in
      let rates = sum_from num (whole num 0) (map (λ x. x.conversion_rate) all) in
      let average = div rates (whole num (length all)) in
      record {
        products_analyzed = length all;
        high_opportunities = length (filter (λ x. is_high x.priority) all);
        critical_products = length (filter (λ x. is_critical x.priority) all);
        estimated_revenue_potential =
            sum_from num (whole num 0) (map (λ x. x.estimated_revenue_gain) all);
        estimated_margin_potential =
            sum_from num (whole num 0) (map (λ x. x.estimated_margin_gain) all);
        average_conversion = div (round (mul average (whole num 10000))) (whole num 10000);
        average_stock_coverage = average_coverage (coverages all);
      }

  module _ (to_fixed : N → ℕ → Text) where
    abbrev pub percent : N → Text
    percent rate = to_fixed (mul rate (whole num 100)) 1

    abbrev pub build_reason : OpportunityType → ProductPerformance N → N → Text
    build_reason increase_ads perf stock =
        text "Produto de alta margem ("
        ++ to_fixed perf.margin_percentage 0
        ++ text "%) com boa conversão ("
        ++ percent perf.conversion_rate
        ++ text "%) e estoque disponível."
    build_reason improve_listing perf stock =
        text "Muitas visualizações ("
        ++ show_number perf.views
        ++ text ") mas baixa conversão ("
        ++ percent perf.conversion_rate
        ++ text "%). Revisar imagens, título e descrição."
    build_reason replenish_stock perf stock =
        text "Alta conversão ("
        ++ percent perf.conversion_rate
        ++ text "%) com estoque baixo ("
        ++ show_number stock
        ++ text " unidades). Risco de ruptura."
    build_reason review_price perf stock =
        text "Estoque elevado ("
        ++ show_number stock
        ++ text " unidades) com baixa conversão ("
        ++ percent perf.conversion_rate
        ++ text "%). Avaliar redução de preço."
    build_reason monitor perf stock = text "Desempenho estável. Nenhuma ação urgente necessária."

    unfoldable pub build_opportunity :
        ProductPerformance N → InventoryAnalysis N → SalesOpportunity N
    build_opportunity perf inv =
        let stock = inv.base.available_stock in
        let days = inv.base.stock_coverage_days in
        let margin = perf.margin_percentage in
        let availability = calculate_stock_availability num stock days in
        let score =
          calculate_sales_opportunity_score num
            (calculate_conversion_score num perf.conversion_rate perf.views) (some margin)
            availability perf.views perf.revenue in
        let type =
          evaluate_opportunity_type num perf.conversion_rate perf.views days (some margin) stock in
        let confidence = evaluate_confidence num perf.conversion_rate perf.views availability in
        let revenue = if eq perf.revenue (whole num 0) then whole num 1 else perf.revenue in
        let gain = round (mul (mul revenue (decimal 15 2)) confidence) in
        record {
          id = text "sales-opp-" ++ perf.product_id;
          sku = perf.sku;
          product_name = perf.product_name;
          category = perf.category;
          current_revenue = perf.revenue;
          current_orders = perf.orders;
          conversion_rate = perf.conversion_rate;
          views = perf.views;
          available_stock = stock;
          coverage_days = days;
          priority = evaluate_priority num score;
          opportunity_type = type;
          estimated_revenue_gain = gain;
          estimated_margin_gain =
              round (mul (mul gain (div margin (whole num 100))) (decimal 12 2));
          recommended_action = build_action type;
          reason = build_reason type perf stock;
          confidence = confidence;
        }

    -- What one pass of the loop over the products pushes.
    abbrev pub push_opportunity :
        ProductPerformance N → Option (InventoryAnalysis N) → List (SalesOpportunity N)
    push_opportunity perf none = []
    push_opportunity perf (some inv) =
        if is_inactive inv.base.stock_status
        then []
        else (if le perf.views (whole num 0) && le perf.revenue (whole num 0)
            then []
            else build_opportunity perf inv ∷ [])

    unfoldable pub find_opportunities :
        Table (InventoryAnalysis N) → List (ProductPerformance N) → List (SalesOpportunity N)
    find_opportunities table [] = []
    find_opportunities table (perf ∷ rest) =
        push_opportunity perf (table_get perf.product_id table) ++ find_opportunities table rest

    unfoldable pub analyze : List (ProductPerformance N) → List (InventoryAnalysis N) → Analysis N
    analyze products inventory =
        let found = sort comes_after (find_opportunities (index_from [] inventory) products) in
        record { opportunities = found; summary = build_summary found }
