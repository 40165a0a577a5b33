-- ===== src/Sales.antt =====
-- frontend/src/features/sales-intelligence: the types, and its calculators and evaluators over finite
-- numbers.
pub mod Service
pub mod Order
mod Tests
use royale_ai_platform.Prelude.{
  Bool, true, false, Option, none, some, List, not, ◌&&◌, ◌||◌, if◌then◌else◌,
}
use royale_ai_platform.Text.{Text}
use royale_ai_platform.Numbers.{Numbers, whole, min, max}

pub data OpportunityType : Type 0 where
  increase_ads : OpportunityType
  improve_listing : OpportunityType
  replenish_stock : OpportunityType
  review_price : OpportunityType
  monitor : OpportunityType

pub data Priority : Type 0 where
  low : Priority
  medium : Priority
  high : Priority
  critical : Priority

pub record ProductPerformance (N : Type 0) : Type 0 where
  pub product_id : Text
  pub sku : Text
  pub product_name : Text
  pub category : Text
  pub views : N
  pub conversions : N
  pub orders : N
  pub revenue : N
  pub conversion_rate : N
  pub margin_percentage : N

pub record SalesOpportunity (N : Type 0) : Type 0 where
  pub id : Text
  pub sku : Text
  pub product_name : Text
  pub category : Text
  pub current_revenue : N
  pub current_orders : N
  pub conversion_rate : N
  pub views : N
  pub available_stock : N
  pub coverage_days : Option N
  pub priority : Priority
  pub opportunity_type : OpportunityType
  pub estimated_revenue_gain : N
  pub estimated_margin_gain : N
  pub recommended_action : Text
  pub reason : Text
  pub confidence : N

module _ {N : Type 0} (num : Numbers N) where
  open num use {add, sub, mul, div, lt, le, decimal, round}

  unfoldable pub calculate_conversion_score : N → N → N
  calculate_conversion_score conversion_rate views =
      let base = min num (div conversion_rate (decimal 1 1)) (whole num 1) in
      let view_factor = min num (div views (whole num 1000)) (whole num 1) in
      if le views (whole num 0)
      then whole num 0
      else div
          (round
            (mul (add (mul base (decimal 6 1)) (mul view_factor (decimal 4 1))) (whole num 100)))
          (whole num 100)

  unfoldable pub calculate_revenue_potential : N → N → N → N
  calculate_revenue_potential current_revenue conversion_rate average_growth =
      let growth_factor = div (max num average_growth (whole num 0)) (whole num 100) in
      let conversion_factor =
        max num (sub (whole num 1) (div conversion_rate (decimal 1 1))) (whole num 0) in
      if le current_revenue (whole num 0)
      then whole num 0
      else round (mul current_revenue (add growth_factor (mul conversion_factor (decimal 3 1))))

  unfoldable pub calculate_margin_potential : N → N → N
  calculate_margin_potential margin_percentage estimated_revenue =
      if le estimated_revenue (whole num 0) || le margin_percentage (whole num 0)
      then whole num 0
      else round (mul estimated_revenue (div margin_percentage (whole num 100)))

  abbrev pub availability_of : Option N → N
  availability_of none = decimal 5 1
  availability_of (some days) =
      if le (whole num 60) days
      then whole num 1
      else (if le (whole num 30) days
          then decimal 8 1
          else (if le (whole num 15) days
              then decimal 6 1
              else (if le (whole num 7) days then decimal 3 1 else decimal 1 1)))

  unfoldable pub calculate_stock_availability : N → Option N → N
  calculate_stock_availability available_stock coverage_days =
      if le available_stock (whole num 0) then whole num 0 else availability_of coverage_days

  abbrev pub margin_score : Option N → N
  margin_score none = decimal 3 1
  margin_score (some margin) = min num (div margin (whole num 100)) (whole num 1)

  unfoldable pub calculate_sales_opportunity_score : N → Option N → N → N → N → N
  calculate_sales_opportunity_score conversion_score margin stock_availability views revenue =
      let view_score = min num (div views (whole num 2000)) (whole num 1) in
      let revenue_score = min num (div revenue (whole num 50000)) (whole num 1) in
      let by_conversion = mul conversion_score (decimal 3 1) in
      let by_margin = mul (margin_score margin) (decimal 25 2) in
      let by_stock = mul stock_availability (decimal 2 1) in
      let by_views = mul view_score (decimal 15 2) in
      let by_revenue = mul revenue_score (decimal 1 1) in
      round (
        mul (add (add (add (add by_conversion by_margin) by_stock) by_views) by_revenue)
          (whole num 100))

  unfoldable pub calculate_priority_score : N → N → N
  calculate_priority_score opportunity_score confidence = round (mul opportunity_score confidence)

  -- `value !== null && test(value)`
  abbrev pub there_and : Option N → (N → Bool) → Bool
  there_and none test = false
  there_and (some n) test = test n

  unfoldable pub evaluate_opportunity_type : N → N → Option N → Option N → N → OpportunityType
  evaluate_opportunity_type conversion_rate views coverage_days margin available_stock =
      let has_high_conversion = le (decimal 5 2) conversion_rate in
      let has_low_conversion = le conversion_rate (decimal 1 2) in
      let has_many_views = le (whole num 500) views in
      let has_low_stock = there_and coverage_days (λ d. le d (whole num 15)) in
      let has_high_stock = there_and coverage_days (λ d. le (whole num 60) d) in
      let has_high_margin = there_and margin (λ m. le (whole num 40) m) in
      let has_stock = lt (whole num 0) available_stock in
      if has_high_conversion && has_low_stock
      then replenish_stock
      else (if has_many_views && has_low_conversion
          then improve_listing
          else (if has_high_margin && has_high_conversion && has_stock
              then increase_ads
              else (if has_high_stock && not has_high_conversion then review_price else monitor)))

  unfoldable pub evaluate_priority : N → Priority
  evaluate_priority score =
      if le (whole num 75) score
      then critical
      else (if le (whole num 50) score
          then high
          else (if le (whole num 25) score then medium else low))

  -- `if (test) score += n`
  abbrev pub add_if : Bool → N → N → N
  add_if test n score = if test then add score n else score

  unfoldable pub evaluate_confidence : N → N → N → N
  evaluate_confidence conversion_rate views stock_availability =
      let by_views = add_if (lt (whole num 1000) views) (decimal 2 1) (decimal 5 1) in
      let by_many_views = add_if (lt (whole num 5000) views) (decimal 1 1) by_views in
      let by_conversion = add_if (lt (decimal 3 2) conversion_rate) (decimal 1 1) by_many_views in
      min num (add_if (lt (decimal 5 1) stock_availability) (decimal 1 1) by_conversion)
        (whole num 1)
