-- ===== src/Purchase.antt =====
-- frontend/src/features/purchase-intelligence: the types, and its calculators and evaluators over
-- finite numbers. The clock is read as standing still during one analysis.
mod Tests
pub mod Service
pub mod Urgent
use royale_ai_platform.Prelude.{
  Bool, true, false, Option, none, some, List, not, ◌&&◌, ◌||◌, if◌then◌else◌,
}
use royale_ai_platform.Text.{Text}
use royale_ai_platform.Numbers.{Numbers, whole, min, max}
use royale_ai_platform.Inventory.{
  StockStatus, out_of_stock, stockout_risk, low_stock, healthy, overstock, slow_moving, inactive,
}

pub record ProductPurchaseData (N : Type 0) : Type 0 where
  pub average_daily_sales : N
  pub lead_time_days : N
  pub sale_price : N
  pub cost : N

pub data Urgency : Type 0 where
  immediate : Urgency
  today : Urgency
  this_week : Urgency
  planned : Urgency

pub data RiskLevel : Type 0 where
  low : RiskLevel
  medium : RiskLevel
  high : RiskLevel
  critical : RiskLevel

-- `new Date().getTime()`, `new Date(…).toISOString()` and `toFixed`
pub record Platform (N : Type 0) : Type 0 where
  pub now : N
  pub to_iso_string : N → Text
  pub to_fixed : N → N → Text

abbrev pub risk_of_status : StockStatus → RiskLevel
risk_of_status out_of_stock = critical
risk_of_status stockout_risk = high
risk_of_status low_stock = medium
risk_of_status healthy = low
risk_of_status overstock = low
risk_of_status slow_moving = low
risk_of_status inactive = low

abbrev pub is_out_of_stock : StockStatus → Bool
is_out_of_stock out_of_stock = true
is_out_of_stock stockout_risk = false
is_out_of_stock low_stock = false
is_out_of_stock healthy = false
is_out_of_stock overstock = false
is_out_of_stock slow_moving = false
is_out_of_stock inactive = false

module _ {N : Type 0} (num : Numbers N) where
  open num use {add, sub, mul, div, lt, le, decimal, round}

  abbrev pub coverage_risk_of : N → N → N
  coverage_risk_of days lead_time =
      if le days (whole num 0)
      then whole num 1
      else (if le days lead_time
          then decimal 8 1
          else (if le days (mul lead_time (decimal 15 1)) then decimal 5 1 else decimal 2 1))

  unfoldable pub calculate_coverage_risk : Option N → N → N
  calculate_coverage_risk none lead_time = whole num 1
  calculate_coverage_risk (some days) lead_time = coverage_risk_of days lead_time

  unfoldable pub calculate_lead_time_risk : N → N
  calculate_lead_time_risk lead_time =
      if le (whole num 20) lead_time
      then decimal 9 1
      else (if le (whole num 10) lead_time
          then decimal 6 1
          else (if le (whole num 5) lead_time then decimal 3 1 else decimal 1 1))

  unfoldable pub calculate_investment : N → N → N
  calculate_investment quantity cost = round (mul quantity (max num (whole num 0) cost))

  -- `estimatedLostSales`
  abbrev pub lost_sales : N → N → N
  lost_sales quantity daily_sales = min num quantity (round (mul daily_sales (whole num 30)))

  unfoldable pub calculate_revenue_protection : N → N → N → N
  calculate_revenue_protection quantity sale_price daily_sales =
      if le daily_sales (whole num 0)
      then whole num 0
      else round (mul (lost_sales quantity daily_sales) sale_price)

  unfoldable pub calculate_margin_protection : N → N → N → N → N
  calculate_margin_protection quantity sale_price cost daily_sales =
      let margin = sub sale_price cost in
      if le daily_sales (whole num 0)
      then whole num 0
      else (if le margin (whole num 0)
          then whole num 0
          else round (mul (lost_sales quantity daily_sales) margin))

  -- `days * 24 * 60 * 60 * 1000`
  abbrev pub milliseconds : N → N
  milliseconds days =
      mul (mul (mul (mul days (whole num 24)) (whole num 60)) (whole num 60)) (whole num 1000)

  module _ (platform : Platform N) where
    open platform use {now, to_iso_string}

    -- The lead time is not read.
    unfoldable pub calculate_safe_order_date : N → Option N → Text
    calculate_safe_order_date lead_time none = to_iso_string now
    calculate_safe_order_date lead_time (some days) =
        if le days (whole num 0)
        then to_iso_string now
        else to_iso_string (add now (milliseconds days))

    unfoldable pub calculate_recommended_order_date : N → Option N → Text
    calculate_recommended_order_date lead_time none = to_iso_string now
    calculate_recommended_order_date lead_time (some days) =
        if le days lead_time
        then to_iso_string now
        else to_iso_string (add now (milliseconds (sub days lead_time)))

  -- The last test of `evaluateUrgency` has one result on both branches.
  unfoldable pub evaluate_urgency : Option N → N → N → N → Urgency
  evaluate_urgency none lead_time quantity cost = immediate
  evaluate_urgency (some days) lead_time quantity cost =
      if le days lead_time
      then immediate
      else (if le days (add lead_time (whole num 3))
          then today
          else (if le days (mul lead_time (whole num 2))
              then this_week
              else (if le quantity (whole num 0) || le cost (whole num 0)
                  then planned
                  else planned)))

  abbrev pub risk_of_coverage : Option N → N → StockStatus → RiskLevel
  risk_of_coverage none lead_time status = critical
  risk_of_coverage (some days) lead_time status =
      if le days lead_time
      then critical
      else (if le days (add lead_time (whole num 3)) then high else risk_of_status status)

  unfoldable pub evaluate_risk_level : Option N → N → StockStatus → RiskLevel
  evaluate_risk_level coverage_days lead_time status =
      if is_out_of_stock status then critical else risk_of_coverage coverage_days lead_time status

  abbrev pub has_high_margin : Option N → Bool
  has_high_margin none = false
  has_high_margin (some margin) = le (whole num 40) margin

  abbrev pub risk_score : RiskLevel → N
  risk_score critical = whole num 1
  risk_score high = decimal 7 1
  risk_score medium = decimal 4 1
  risk_score low = decimal 1 1

  unfoldable pub evaluate_priority : Option N → N → RiskLevel → N
  evaluate_priority margin daily_sales risk =
      let margin_score = if has_high_margin margin then whole num 1 else decimal 3 1 in
      let demand_score =
        if le (whole num 3) daily_sales
        then whole num 1
        else (if lt (whole num 0) daily_sales then decimal 5 1 else decimal 1 1) in
      round (
        mul
          (add (add (mul margin_score (decimal 4 1)) (mul demand_score (decimal 3 1)))
            (mul (risk_score risk) (decimal 3 1)))
          (whole num 100))
