-- ===== src/Inventory/Scores.antt =====
-- Which products get the priority "critical", and how far the score goes.
use royale_ai_platform.Prelude.{
  ℕ, ◌≤◌, ◌+◌, Bool, true, Option, none, some, ◌≡◌, refl, inl, inr, arith, ◌↔◌, ◌⊎◌, if◌then◌else◌,
  Bool-cases, iff_trans,
}
use royale_ai_platform.Numbers.{Numbers, whole}
use royale_ai_platform.Inventory.{
  StockStatus, out_of_stock, stockout_risk, low_stock, healthy, overstock, slow_moving, inactive,
  AbcClass, class_a, class_b, class_c, critical, AnalysisBase,
}
use royale_ai_platform.Inventory.Classifiers.{
  classify_replenishment_priority, status_points, class_points, coverage_points, purchase_points,
  calculate_replenishment_score, round_halves, clamp_score, is_inactive,
}
use royale_ai_platform.Inventory.Service.{analysis_of}

critical-80 : (score : ℕ) → (classify_replenishment_priority score ≡ critical) ↔ (80 ≤ score)
unfolding classify_replenishment_priority
critical-80 score = ground arith

class_points-le : (c : AbcClass) → class_points c ≤ 30
class_points-le class_a = omega arith
class_points-le class_b = omega arith
class_points-le class_c = omega arith

status_points-le : (s : StockStatus) → status_points s ≤ 80
status_points-le out_of_stock = omega arith
status_points-le stockout_risk = omega arith
status_points-le low_stock = omega arith
status_points-le healthy = omega arith
status_points-le overstock = omega arith
status_points-le slow_moving = omega arith
status_points-le inactive = omega arith

module _ {N : Type 0} (num : Numbers N) where
  open num use {le, lt}

  -- The stock does not cover more than three days.
  abbrev pub IsCovering3 : Option N → Type 0
  IsCovering3 none = ⊥
  IsCovering3 (some days) = le days (whole num 3) ≡ true

  coverage_points_cases :
      (o : Option N)
      → (IsCovering3 o × (coverage_points num o ≡ 50))
        ⊎ ((IsCovering3 o → ⊥) × (coverage_points num o ≤ 25))
  coverage_points_cases none = inr (λ h. h, omega arith)
  coverage_points_cases (some days) = elim (Bool-cases (le days (whole num 3))) [
    | inl e ↦ inl (e, rw e refl)
    | inr e ↦ inr (λ h. absurd (ground arith), rw e (ground arith))
  ]

  purchase_points-le : (quantity : N) → purchase_points num quantity ≤ 10
  purchase_points-le quantity = ground arith

  points-le :
      (b : Bool) {halves : ℕ}
      → halves ≤ 170
      → (if b then 0 else clamp_score (round_halves halves)) ≤ 85
  points-le b h = ground arith

  not-critical :
      (s : ℕ) (c : AbcClass) {coverage purchase : ℕ}
      → coverage ≤ 50
      → purchase ≤ 10
      → s ≤ 64
      → 80 ≤ clamp_score (round_halves (s + coverage + class_points c + purchase))
      → ⊥
  not-critical s c k p h x = ground (arith, class_points-le c)

  coverage-le :
      {Covering : Type 0} {coverage : ℕ}
      → (Covering × (coverage ≡ 50)) ⊎ ((Covering → ⊥) × (coverage ≤ 25))
      → coverage ≤ 50
  coverage-le (inl (h, e)) = omega arith
  coverage-le (inr (h, e)) = omega arith

  -- The sum of the points, apart from what it is computed from.
  points_critical :
      (status : StockStatus) (c : AbcClass) (coverage purchase : ℕ) (Covering : Type 0)
      → (Covering × (coverage ≡ 50)) ⊎ ((Covering → ⊥) × (coverage ≤ 25))
      → purchase ≤ 10
      → (80 ≤ (
          if is_inactive status
          then 0
          else clamp_score
              (round_halves (status_points status + coverage + class_points c + purchase))))
        ↔ ((status ≡ out_of_stock) × Covering × (c ≡ class_a))
  points_critical out_of_stock class_a coverage purchase Covering (inl (h, e)) p =
      (λ _. (refl, h, refl), λ _. ground arith)
  points_critical out_of_stock class_a coverage purchase Covering (inr (h, e)) p =
      (λ x. absurd (ground arith), λ x. absurd (h x.1))
  points_critical out_of_stock class_b coverage purchase Covering k p =
      (λ x. absurd (ground arith), λ x. absurd (ground arith))
  points_critical out_of_stock class_c coverage purchase Covering k p =
      (λ x. absurd (ground arith), λ x. absurd (ground arith))
  points_critical stockout_risk c coverage purchase Covering k p = (
    λ x. absurd (not-critical 64 c (coverage-le k) p (omega arith) x),
    λ x. absurd (ground arith),
  )
  points_critical low_stock c coverage purchase Covering k p =
      (λ x. absurd (not-critical 0 c (coverage-le k) p (omega arith) x), λ x. absurd (ground arith))
  points_critical healthy c coverage purchase Covering k p =
      (λ x. absurd (not-critical 0 c (coverage-le k) p (omega arith) x), λ x. absurd (ground arith))
  points_critical overstock c coverage purchase Covering k p =
      (λ x. absurd (not-critical 0 c (coverage-le k) p (omega arith) x), λ x. absurd (ground arith))
  points_critical slow_moving c coverage purchase Covering k p =
      (λ x. absurd (not-critical 0 c (coverage-le k) p (omega arith) x), λ x. absurd (ground arith))
  points_critical inactive c coverage purchase Covering k p =
      (λ x. absurd (omega arith), λ x. absurd (ground arith))

  -- A product has the priority "critical" exactly if it is out of stock, its stock covers no more
  -- than three days and its class is A: neither a risk of running out nor a quantity to buy is enough.
  pub analysis_of-critical_iff :
      (base : AnalysisBase N)
      → ((analysis_of num base).replenishment_priority ≡ critical) ↔ (
          (base.stock_status ≡ out_of_stock)
          × IsCovering3 base.stock_coverage_days
          × (base.abc_class ≡ class_a))
  unfolding analysis_of calculate_replenishment_score
  analysis_of-critical_iff base = iff_trans (critical-80 _) (
      points_critical base.stock_status base.abc_class _ _ (IsCovering3 base.stock_coverage_days)
        (coverage_points_cases base.stock_coverage_days)
        (purchase_points-le base.suggested_purchase_quantity))

  -- The score of every product is at most 85, of the 100 that the scale has.
  pub calculate_replenishment_score-le :
      (base : AnalysisBase N) → calculate_replenishment_score num base ≤ 85
  unfolding calculate_replenishment_score
  calculate_replenishment_score-le base =
      let status = status_points-le base.stock_status in
      let coverage = coverage-le (coverage_points_cases base.stock_coverage_days) in
      let abc = class_points-le base.abc_class in
      let purchase = purchase_points-le base.suggested_purchase_quantity in
      points-le (is_inactive base.stock_status) (omega arith)
