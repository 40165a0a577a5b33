-- ===== src/Inventory/Summary.antt =====
-- What `buildSummary` counts, and which products it puts on top.
use royale_ai_platform.Prelude.{
  ℕ, ◌≤◌, ◌+◌, Bool, false, not, List, [], ◌∷◌, ◌++◌, ◌≡◌, take-sort, IsPairwise,
  IsSorted-IsPairwise, All-map, ◌⊎◌, refl, arith, if◌then◌else◌, All, IsComparison, filter, length,
  length-filter,
}
use mathlib.Core.List.{Perm}
use royale_ai_platform.Numbers.{Numbers}
use royale_ai_platform.Inventory.{
  StockStatus, out_of_stock, stockout_risk, low_stock, healthy, overstock, slow_moving, inactive,
  InventoryAnalysis,
}
use royale_ai_platform.Inventory.Classifiers.{is_inactive}
use royale_ai_platform.Inventory.Service.{
  status_is, has_status, count_status, is_idle, build_summary, InventorySummary, scores_less,
}

-- How many of one product each count takes in.
abbrev one_if : Bool → ℕ
one_if b = if b then 1 else 0

status_once :
    (s : StockStatus)
    → one_if (not (is_inactive s))
      ≡ one_if (status_is out_of_stock s)
        + one_if (status_is stockout_risk s)
        + one_if (status_is low_stock s)
        + one_if (status_is overstock s)
        + one_if (status_is slow_moving s)
        + one_if (status_is healthy s)
status_once out_of_stock = refl
status_once stockout_risk = refl
status_once low_stock = refl
status_once healthy = refl
status_once overstock = refl
status_once slow_moving = refl
status_once inactive = refl

idle_once :
    (s : StockStatus)
    → one_if (is_idle s) ≡ one_if (status_is overstock s) + one_if (status_is slow_moving s)
idle_once out_of_stock = refl
idle_once stockout_risk = refl
idle_once low_stock = refl
idle_once healthy = refl
idle_once overstock = refl
idle_once slow_moving = refl
idle_once inactive = refl

module _ {N : Type 0} (num : Numbers N) where
  abbrev active : List (InventoryAnalysis N) → ℕ
  active xs = length (filter (λ a. not (is_inactive a.base.stock_status)) xs)

  count_cons :
      (status : StockStatus) (x : InventoryAnalysis N) (xs : List (InventoryAnalysis N))
      → count_status num status (x ∷ xs)
        ≡ one_if (status_is status x.base.stock_status) + count_status num status xs
  unfolding count_status
  count_cons status x xs = length-filter (has_status num status) x xs

  active-counts :
      (xs : List (InventoryAnalysis N))
      → active xs
        ≡ count_status num out_of_stock xs
          + count_status num stockout_risk xs
          + count_status num low_stock xs
          + count_status num overstock xs
          + count_status num slow_moving xs
          + count_status num healthy xs
  unfolding count_status
  active-counts [] = refl
  active-counts (x ∷ xs) =
      let own =
        length-filter (λ (a : InventoryAnalysis N). not (is_inactive a.base.stock_status)) x xs in
      omega (
        arith,
        own,
        status_once x.base.stock_status,
        active-counts xs,
        count_cons out_of_stock x xs,
        count_cons stockout_risk x xs,
        count_cons low_stock x xs,
        count_cons overstock x xs,
        count_cons slow_moving x xs,
        count_cons healthy x xs,
      )

  idle-counts :
      (xs : List (InventoryAnalysis N))
      → length (filter (λ a. is_idle a.base.stock_status) xs)
        ≡ count_status num overstock xs + count_status num slow_moving xs
  unfolding count_status
  idle-counts [] = refl
  idle-counts (x ∷ xs) =
      let own = length-filter (λ (a : InventoryAnalysis N). is_idle a.base.stock_status) x xs in
      omega (
        arith,
        own,
        idle_once x.base.stock_status,
        idle-counts xs,
        count_cons overstock x xs,
        count_cons slow_moving x xs,
      )

  -- The counts of the summary fit together: the active products are those of the six other
  -- statuses, and the products with idle capital those above the maximum and those without sales.
  pub build_summary-counts :
      (analyses : List (InventoryAnalysis N)) (s : InventorySummary N)
      → build_summary num analyses ≡ s
      → (s.active_products
          ≡ s.out_of_stock_count + s.stockout_risk_count + s.low_stock_count + s.overstock_count
            + s.slow_moving_count + s.healthy_count)
        × (s.idle_capital_product_count ≡ s.overstock_count + s.slow_moving_count)
  unfolding build_summary
  build_summary-counts analyses s e = rw (← e) (active-counts analyses, idle-counts analyses)

  scores_less-IsComparison : IsComparison (scores_less num)
  scores_less-IsComparison = record {
    asymmetric = λ a b h. ground arith;
    transitive = λ a b c h k. ground arith;
  }

  -- The score of the second is no higher.
  abbrev pub ScoresAtLeast : InventoryAnalysis N → InventoryAnalysis N → Type 0
  ScoresAtLeast x y = y.replenishment_score ≤ x.replenishment_score

  at_least : (x y : InventoryAnalysis N) → scores_less num x y ≡ false → ScoresAtLeast x y
  at_least x y h = ground arith

  -- The top products of the summary are ten of the analyses, or all of them if there are no more than
  -- ten; their scores do not rise along the list, and none of the others has a higher score than one of
  -- them.
  pub build_summary-top :
      (analyses : List (InventoryAnalysis N)) (top : List (InventoryAnalysis N))
      → (build_summary num analyses).top_replenishment_products ≡ top
      → (length top ≤ 10)
        × IsPairwise ScoresAtLeast top
        × (others : List (InventoryAnalysis N)) × Perm (top ++ others) analyses
        × All (λ x. All (ScoresAtLeast x) others) top
        × ((length top ≡ 10) ⊎ (others ≡ []))
  unfolding build_summary
  build_summary-top analyses top e =
      let (few, in_order, others, perm, above, full) =
        take-sort (scores_less num) scores_less-IsComparison 10 analyses top e in
      (
        few,
        IsSorted-IsPairwise (scores_less num) ScoresAtLeast at_least top in_order,
        others,
        perm,
        All-map (λ x below. All-map (at_least x) others below) top above,
        full,
      )
