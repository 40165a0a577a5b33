-- ===== src/Purchase/Urgent.antt =====
-- What an urgent recommendation says.
use royale_ai_platform.Prelude.{
  Bool, true, false, Option, none, some, ◌≡◌, refl, arith, if◌then◌else◌,
}
use royale_ai_platform.Numbers.{Numbers}
use royale_ai_platform.Inventory.{InventoryAnalysis, StockStatus}
use royale_ai_platform.Purchase.{
  ProductPurchaseData, Platform, immediate, critical, is_out_of_stock,
  calculate_recommended_order_date, evaluate_urgency, evaluate_risk_level,
}
use royale_ai_platform.Purchase.Service.{lead_time_of, build_recommendation}

module _ {N : Type 0} (num : Numbers N) (platform : Platform N) where
  open num use {le}

  urgency-covered :
      (days lead_time quantity cost : N)
      → evaluate_urgency num (some days) lead_time quantity cost ≡ immediate
      → le days lead_time ≡ true
  unfolding evaluate_urgency
  urgency-covered days lead_time quantity cost h = ground arith

  either_critical : (b : Bool) → (if b then critical else critical) ≡ critical
  either_critical true = refl
  either_critical false = refl

  immediate-critical :
      (days : Option N) (lead_time quantity cost : N) (status : StockStatus)
      → evaluate_urgency num days lead_time quantity cost ≡ immediate
      → (evaluate_risk_level num days lead_time status ≡ critical)
        × (calculate_recommended_order_date num platform lead_time days
            ≡ platform.to_iso_string platform.now)
  unfolding evaluate_risk_level calculate_recommended_order_date
  immediate-critical none lead_time quantity cost status h =
      (either_critical (is_out_of_stock status), refl)
  immediate-critical (some days) lead_time quantity cost status h =
      rw (urgency-covered days lead_time quantity cost h)
        (either_critical (is_out_of_stock status), refl)

  -- A recommendation whose urgency is immediate has a critical risk, and is to be ordered at the time
  -- of the analysis.
  pub build_recommendation-immediate :
      (a : InventoryAnalysis N) (given : Option (ProductPurchaseData N))
      → (build_recommendation num platform a given).urgency ≡ immediate
      → ((build_recommendation num platform a given).risk_level ≡ critical)
        × ((build_recommendation num platform a given).recommended_order_date
            ≡ platform.to_iso_string platform.now)
  unfolding build_recommendation
  build_recommendation-immediate a given h =
      immediate-critical a.base.stock_coverage_days (lead_time_of num given)
        a.base.suggested_purchase_quantity a.base.cost a.base.stock_status h
