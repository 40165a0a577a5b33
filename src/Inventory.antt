-- ===== src/Inventory.antt =====
-- The analysis of the stock: frontend/src/features/inventory-intelligence. Here are its types and the
-- functions of calculators/index.ts and utils/index.ts. `new Date(text).getTime()` is an argument,
-- and so is the reference time.
mod Tests
pub mod Classifiers
pub mod Service
pub mod Scores
pub mod Curve
pub mod Summary
use royale_ai_platform.Prelude.{
  ℕ, Bool, true, false, Option, none, some, List, [], ◌∷◌, if◌then◌else◌,
}
use royale_ai_platform.Text.{Text, text}
use royale_ai_platform.Numbers.{Numbers, whole, max}

pub record StockProduct (N : Type 0) : Type 0 where
  pub id : Text
  pub sku : Text
  pub name : Text
  pub category : Text
  pub current_stock : N
  pub reserved_stock : N
  pub incoming_stock : N
  pub average_daily_sales : N
  pub sales_last30_days : N
  pub sales_last90_days : N
  pub cost : N
  pub sale_price : N
  pub minimum_stock : N
  pub maximum_stock : N
  pub lead_time_days : N
  pub last_sale_date : Text
  pub last_purchase_date : Text
  pub active : Bool

pub data StockStatus : Type 0 where
  out_of_stock : StockStatus
  stockout_risk : StockStatus
  low_stock : StockStatus
  healthy : StockStatus
  overstock : StockStatus
  slow_moving : StockStatus
  inactive : StockStatus

pub data AbcClass : Type 0 where
  class_a : AbcClass
  class_b : AbcClass
  class_c : AbcClass

pub data Priority : Type 0 where
  critical : Priority
  high : Priority
  medium : Priority
  low : Priority
  no_priority : Priority

-- The part of `InventoryAnalysis` that the score and the reasons are computed from. Its
-- `stockTurnover` is always null.
pub record AnalysisBase (N : Type 0) : Type 0 where
  pub product_id : Text
  pub sku : Text
  pub product_name : Text
  pub available_stock : N
  pub stock_coverage_days : Option N
  pub stock_turnover : Option N
  pub projected_stock_after_lead_time : N
  pub suggested_purchase_quantity : N
  pub gross_margin : N
  pub gross_margin_percentage : Option N
  pub days_since_last_sale : N
  pub abc_class : AbcClass
  pub stock_status : StockStatus
  pub cost : N

pub record InventoryAnalysis (N : Type 0) : Type 0 where
  pub base : AnalysisBase N
  pub replenishment_score : ℕ
  pub replenishment_priority : Priority
  pub reasons : List Text

module _ {N : Type 0} (num : Numbers N) where
  open num use {add, sub, mul, div, lt, le, eq, decimal, round, floor}

  unfoldable pub safe_divide : N → N → Option N
  safe_divide numerator denominator =
      if eq denominator (whole num 0) then none else some (div numerator denominator)

  -- `daysBetween`; the milliseconds of a day are those of the source's product.
  unfoldable pub days_between : (Text → N) → Text → N → N
  days_between time_of from ref =
      max num (whole num 0) (floor (div (sub ref (time_of from)) (whole num 86400000)))

  unfoldable pub calculate_available_stock : StockProduct N → N
  calculate_available_stock product = sub product.current_stock product.reserved_stock

  unfoldable pub calculate_stock_coverage_days : N → N → Option N
  calculate_stock_coverage_days available_stock average_daily_sales =
      safe_divide available_stock average_daily_sales

  unfoldable pub calculate_stock_turnover : N → N → Option N
  calculate_stock_turnover sales_last30_days average_stock_estimate =
      safe_divide sales_last30_days average_stock_estimate

  unfoldable pub calculate_projected_stock_after_lead_time : N → N → N → N → N
  calculate_projected_stock_after_lead_time available_stock average_daily_sales lead_time incoming =
      add (sub available_stock (mul average_daily_sales lead_time)) incoming

  unfoldable pub calculate_suggested_purchase_quantity : N → N → N
  calculate_suggested_purchase_quantity target_stock projected =
      max num (whole num 0) (round (sub target_stock projected))

  unfoldable pub calculate_gross_margin : N → N → N
  calculate_gross_margin sale_price cost = sub sale_price cost

  unfoldable pub calculate_gross_margin_percentage : N → N → Option N
  calculate_gross_margin_percentage sale_price cost =
      if eq sale_price (whole num 0)
      then none
      else some (mul (div (sub sale_price cost) sale_price) (whole num 100))

  unfoldable pub estimate_average_stock : (Text → N) → N → Text → N → N
  estimate_average_stock time_of sales_last30_days last_sale_date ref =
      let days = days_between time_of last_sale_date ref in
      let active_days = if lt (whole num 30) days then whole num 30 else days in
      if lt (whole num 0) active_days then div sales_last30_days active_days else whole num 0
