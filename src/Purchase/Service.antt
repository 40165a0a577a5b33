-- ===== src/Purchase/Service.antt =====
-- `analyze` of frontend/src/features/purchase-intelligence/services/purchase-intelligence-service.ts.
-- The data of the products are a table, empty where none are given.
use royale_ai_platform.Prelude.{
  ℕ, Bool, true, false, Option, none, some, List, [], ◌∷◌, ◌++◌, ◌&&◌, not, ltb, if◌then◌else◌,
  length, filter, map, sort,
}
use royale_ai_platform.Text.{Text, text}
use royale_ai_platform.Text.Table.{Table, table_get}
use royale_ai_platform.Numbers.{Numbers, whole, sum_from}
use royale_ai_platform.Inventory.{InventoryAnalysis}
use royale_ai_platform.Inventory.Classifiers.{is_inactive}
use royale_ai_platform.Purchase.{
  ProductPurchaseData, Urgency, immediate, today, this_week, planned, RiskLevel, low, medium, high,
  critical, Platform, calculate_investment, calculate_revenue_protection,
  calculate_margin_protection, calculate_safe_order_date, calculate_recommended_order_date,
  evaluate_urgency, evaluate_risk_level, evaluate_priority, has_high_margin,
}

pub record Recommendation (N : Type 0) : Type 0 where
  pub id : Text
  pub sku : Text
  pub product_name : Text
  pub recommended_quantity : N
  pub current_stock : N
  pub projected_stock : N
  pub coverage_days : Option N
  pub lead_time_days : N
  pub estimated_investment : N
  pub estimated_revenue_protection : N
  pub estimated_margin_protection : N
  pub urgency : Urgency
  pub priority : N
  pub risk_level : RiskLevel
  pub recommended_order_date : Text
  pub latest_safe_order_date : Text
  pub reason : Text

pub record PurchaseSummary (N : Type 0) : Type 0 where
  pub total_products : ℕ
  pub critical_products : ℕ
  pub recommended_investment : N
  pub estimated_protected_revenue : N
  pub estimated_protected_margin : N
  pub average_coverage : Option N
  pub highest_risk : RiskLevel

pub record PurchaseAnalysis (N : Type 0) : Type 0 where
  pub recommendations : List (Recommendation N)
  pub summary : PurchaseSummary N

-- The place in `riskOrder`
abbrev pub risk_order : RiskLevel → ℕ
risk_order critical = 0
risk_order high = 1
risk_order medium = 2
risk_order low = 3

abbrev pub is_severe : RiskLevel → Bool
is_severe critical = true
is_severe high = true
is_severe medium = false
is_severe low = false

abbrev pub is_immediate : Urgency → Bool
is_immediate immediate = true
is_immediate today = false
is_immediate this_week = false
is_immediate planned = false

module _ {N : Type 0} where
  -- The `reduce` that finds the highest risk.
  unfoldable pub highest_from : RiskLevel → List (Recommendation N) → RiskLevel
  highest_from max [] = max
  highest_from max (r ∷ rest) =
      highest_from (if ltb (risk_order r.risk_level) (risk_order max) then r.risk_level else max)
        rest

  abbrev pub coverages : List (Recommendation N) → List N
  coverages [] = []
  coverages (r ∷ rest) = elim r.coverage_days [
    | none ↦ coverages rest
    | some d ↦ d ∷ coverages rest
  ]

module _ {N : Type 0} (num : Numbers N) where
  open num use {mul, div, lt, le, round, show_number}

  abbrev pub average : List N → Option N
  average [] = none
  average (d ∷ ds) =
      some (round (div (sum_from num (whole num 0) (d ∷ ds)) (whole num (length (d ∷ ds)))))

  unfoldable pub build_summary : List (Recommendation N) → PurchaseSummary N
  build_summary recs = record {
    total_products = length recs;
    critical_products = length (filter (λ r. is_severe r.risk_level) recs);
    recommended_investment = sum_from num (whole num 0) (map (λ r. r.estimated_investment) recs);
    estimated_protected_revenue =
        sum_from num (whole num 0) (map (λ r. r.estimated_revenue_protection) recs);
    estimated_protected_margin =
        sum_from num (whole num 0) (map (λ r. r.estimated_margin_protection) recs);
    average_coverage = average (coverages recs);
    highest_risk = highest_from low recs;
  }

  abbrev pub needs_purchase : InventoryAnalysis N → Bool
  needs_purchase a =
      not (is_inactive a.base.stock_status) && lt (whole num 0) a.base.suggested_purchase_quantity

  -- `(a, b) => b.priority - a.priority` is positive.
  abbrev pub has_less_priority : Recommendation N → Recommendation N → Bool
  has_less_priority a b = lt a.priority b.priority

  -- `pData?.leadTimeDays ?? 7` and the like
  abbrev pub lead_time_of : Option (ProductPurchaseData N) → N
  lead_time_of none = whole num 7
  lead_time_of (some data_of) = data_of.lead_time_days

  abbrev pub daily_sales_of : Option (ProductPurchaseData N) → N
  daily_sales_of none = whole num 0
  daily_sales_of (some data_of) = data_of.average_daily_sales

  abbrev pub sale_price_of : N → Option (ProductPurchaseData N) → N
  sale_price_of cost none = mul cost (whole num 2)
  sale_price_of cost (some data_of) = data_of.sale_price

  abbrev pub number_or : Text → Option N → Text
  number_or other none = other
  number_or other (some n) = show_number n

  module _ (platform : Platform N) where
    unfoldable pub generate_reason : InventoryAnalysis N → Urgency → RiskLevel → N → N → Text
    generate_reason a urgency risk lead_time daily_sales =
        if is_immediate urgency
        then text "Estoque insuficiente para cobrir o lead time de "
          ++ show_number lead_time
          ++ text " dias."
        else (if is_severe risk
            then text "Risco de ruptura elevado com cobertura de "
              ++ number_or (text "?") a.base.stock_coverage_days
              ++ text " dias."
            else (if has_high_margin num a.base.gross_margin_percentage
                then text "Produto de alta margem ("
                  ++ number_or [] a.base.gross_margin_percentage
                  ++ text "%) com reposição programada."
                else text "Reposição baseada na demanda média de "
                  ++ platform.to_fixed daily_sales (whole num 1)
                  ++ text " unidades/dia."))

    unfoldable pub build_recommendation :
        InventoryAnalysis N → Option (ProductPurchaseData N) → Recommendation N
    build_recommendation a given =
        let b = a.base in
        let lead_time = lead_time_of given in
        let daily_sales = daily_sales_of given in
        let sale_price = sale_price_of b.cost given in
        let quantity = b.suggested_purchase_quantity in
        let days = b.stock_coverage_days in
        let urgency = evaluate_urgency num days lead_time quantity b.cost in
        let risk = evaluate_risk_level num days lead_time b.stock_status in
        record {
          id = text "purchase-" ++ b.product_id;
          sku = b.sku;
          product_name = b.product_name;
          recommended_quantity = quantity;
          current_stock = b.available_stock;
          projected_stock = b.projected_stock_after_lead_time;
          coverage_days = days;
          lead_time_days = lead_time;
          estimated_investment = calculate_investment num quantity b.cost;
          estimated_revenue_protection =
              calculate_revenue_protection num quantity sale_price daily_sales;
          estimated_margin_protection =
              calculate_margin_protection num quantity sale_price b.cost daily_sales;
          urgency = urgency;
          priority = evaluate_priority num b.gross_margin_percentage daily_sales risk;
          risk_level = risk;
          recommended_order_date = calculate_recommended_order_date num platform lead_time days;
          latest_safe_order_date = calculate_safe_order_date num platform lead_time days;
          reason = generate_reason a urgency risk lead_time daily_sales;
        }

    unfoldable pub analyze :
        List (InventoryAnalysis N) → Table (ProductPurchaseData N) → PurchaseAnalysis N
    analyze analyses product_data =
        let recs = sort has_less_priority (
          map (λ a. build_recommendation a (table_get a.base.product_id product_data))
            (filter needs_purchase analyses)) in
        record { recommendations = recs; summary = build_summary recs }
