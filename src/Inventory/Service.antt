-- ===== src/Inventory/Service.antt =====
-- `analyzeProducts` and `buildSummary` of
-- frontend/src/features/inventory-intelligence/services/inventory-intelligence-service.ts.
use royale_ai_platform.Prelude.{
  ℕ, Bool, true, false, Option, none, some, List, [], ◌∷◌, ◌&&◌, ◌||◌, not, ltb, sort, take, map,
  filter, length,
}
use royale_ai_platform.Text.{Text}
use royale_ai_platform.Text.Table.{Table, table_get}
use royale_ai_platform.Numbers.{Numbers, whole, max, sum_from}
use royale_ai_platform.Inventory.{
  StockProduct, StockStatus, out_of_stock, stockout_risk, low_stock, healthy, overstock,
  slow_moving, inactive, AbcClass, class_c, Priority, critical, high, medium, low, no_priority,
  AnalysisBase, InventoryAnalysis, days_between, calculate_available_stock,
  calculate_stock_coverage_days, calculate_projected_stock_after_lead_time,
  calculate_suggested_purchase_quantity, calculate_gross_margin, calculate_gross_margin_percentage,
}
use royale_ai_platform.Inventory.Classifiers.{
  classify_replenishment_priority, Valued, classify_stock_status, classify_abc,
  calculate_replenishment_score, determine_reasons, is_inactive,
}

abbrev pub or_class_c : Option AbcClass → AbcClass
or_class_c none = class_c
or_class_c (some c) = c

-- `===` on the statuses that the summary counts.
abbrev pub status_is : StockStatus → StockStatus → Bool
status_is out_of_stock out_of_stock = true
status_is stockout_risk stockout_risk = true
status_is low_stock low_stock = true
status_is healthy healthy = true
status_is overstock overstock = true
status_is slow_moving slow_moving = true
status_is inactive inactive = true
status_is _ _ = false

abbrev pub is_critical : Priority → Bool
is_critical critical = true
is_critical high = false
is_critical medium = false
is_critical low = false
is_critical no_priority = false

abbrev pub is_idle : StockStatus → Bool
is_idle status = status_is overstock status || status_is slow_moving status

pub record InventorySummary (N : Type 0) : Type 0 where
  pub total_products : ℕ
  pub active_products : ℕ
  pub out_of_stock_count : ℕ
  pub stockout_risk_count : ℕ
  pub low_stock_count : ℕ
  pub overstock_count : ℕ
  pub slow_moving_count : ℕ
  pub healthy_count : ℕ
  pub total_suggested_purchase_units : N
  pub estimated_suggested_purchase_cost : N
  pub idle_capital_product_count : ℕ
  pub idle_capital_value : N
  pub average_coverage_days : Option N
  pub critical_replenishment_count : ℕ
  pub top_replenishment_products : List (InventoryAnalysis N)

module _ {N : Type 0} (num : Numbers N) where
  open num use {add, mul, div, lt, round}

  abbrev pub valued : StockProduct N → Valued N
  valued p = record { product_id = p.id; sales_value = mul p.sales_last90_days p.sale_price }

  unfoldable pub analysis_base : (Text → N) → N → Table AbcClass → StockProduct N → AnalysisBase N
  analysis_base time_of ref abc product =
      let available = calculate_available_stock num product in
      let projected =
        calculate_projected_stock_after_lead_time num available product.average_daily_sales
          product.lead_time_days product.incoming_stock in
      let days_since = days_between num time_of product.last_sale_date ref in
      record {
        product_id = product.id;
        sku = product.sku;
        product_name = product.name;
        available_stock = available;
        stock_coverage_days =
            calculate_stock_coverage_days num available product.average_daily_sales;
        stock_turnover = none;
        projected_stock_after_lead_time = projected;
        suggested_purchase_quantity =
            calculate_suggested_purchase_quantity num product.maximum_stock projected;
        gross_margin = calculate_gross_margin num product.sale_price product.cost;
        gross_margin_percentage =
            calculate_gross_margin_percentage num product.sale_price product.cost;
        days_since_last_sale = days_since;
        abc_class = or_class_c (table_get product.id abc);
        stock_status = classify_stock_status num product available projected days_since;
        cost = product.cost;
      }

  unfoldable pub analysis_of : AnalysisBase N → InventoryAnalysis N
  analysis_of base =
      let score = calculate_replenishment_score num base in
      record {
        base = base;
        replenishment_score = score;
        replenishment_priority = classify_replenishment_priority score;
        reasons = determine_reasons num base;
      }

  unfoldable pub analyze_products :
      (Text → N) → N → List (StockProduct N) → List (InventoryAnalysis N)
  analyze_products time_of ref products =
      let abc = classify_abc num (map valued products) in
      map (λ product. analysis_of (analysis_base time_of ref abc product)) products

  abbrev pub coverages : List (InventoryAnalysis N) → List N
  coverages [] = []
  coverages (a ∷ rest) = elim a.base.stock_coverage_days [
    | none ↦ coverages rest
    | some d ↦ d ∷ coverages rest
  ]

  abbrev pub average : List N → Option N
  average [] = none
  average (d ∷ ds) =
      some (round (div (sum_from num (whole num 0) (d ∷ ds)) (whole num (length (d ∷ ds)))))

  abbrev pub has_status : StockStatus → InventoryAnalysis N → Bool
  has_status status a = status_is status a.base.stock_status

  unfoldable pub count_status : StockStatus → List (InventoryAnalysis N) → ℕ
  count_status status analyses = length (filter (has_status status) analyses)

  abbrev pub is_idle_capital : InventoryAnalysis N → Bool
  is_idle_capital a =
      is_idle a.base.stock_status
      && lt (whole num 0) a.base.available_stock
      && lt (whole num 0) a.base.cost

  -- `(a, b) => b.replenishmentScore - a.replenishmentScore` is positive.
  abbrev pub scores_less : InventoryAnalysis N → InventoryAnalysis N → Bool
  scores_less a b = ltb a.replenishment_score b.replenishment_score

  unfoldable pub build_summary : List (InventoryAnalysis N) → InventorySummary N
  build_summary analyses = record {
    total_products = length analyses;
    active_products = length (filter (λ a. not (is_inactive a.base.stock_status)) analyses);
    out_of_stock_count = count_status out_of_stock analyses;
    stockout_risk_count = count_status stockout_risk analyses;
    low_stock_count = count_status low_stock analyses;
    overstock_count = count_status overstock analyses;
    slow_moving_count = count_status slow_moving analyses;
    healthy_count = count_status healthy analyses;
    total_suggested_purchase_units =
        sum_from num (whole num 0) (map (λ a. a.base.suggested_purchase_quantity) analyses);
    estimated_suggested_purchase_cost = round (
        sum_from num (whole num 0) (
          map (λ a. mul a.base.suggested_purchase_quantity (max num (whole num 0) a.base.cost))
            analyses));
    idle_capital_product_count = length (filter (λ a. is_idle a.base.stock_status) analyses);
    idle_capital_value = round (
        sum_from num (whole num 0)
          (map (λ a. mul a.base.available_stock a.base.cost) (filter is_idle_capital analyses)));
    average_coverage_days = average (coverages analyses);
    critical_replenishment_count =
        length (filter (λ a. is_critical a.replenishment_priority) analyses);
    top_replenishment_products = take 10 (sort scores_less analyses);
  }
