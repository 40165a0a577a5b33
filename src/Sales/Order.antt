-- ===== src/Sales/Order.antt =====
-- In which order the analysis of the sales gives its opportunities.
use royale_ai_platform.Prelude.{
  true, false, List, [], ◌∷◌, ◌≡◌, ◌++◌, ◌+◌, refl, arith, length, sort, sort-perm, sort-IsSorted,
  IsComparison, ℕ, IsPairwise, IsSorted-IsPairwise, ◌⊎◌, ◌<◌, inl, inr, Option, none, some, not,
  ◌&&◌, ◌||◌, ◌∙◌, if◌then◌else◌, Bool, map, Bool-cases, Option-cases,
}
use mathlib.Core.List.{Perm}
use mathlib.Core.List.Perm
use royale_ai_platform.Text.{Text, text, text_eq}
use royale_ai_platform.Inventory.{InventoryAnalysis}
use royale_ai_platform.Numbers.{Numbers, AreOrdered, whole}
use royale_ai_platform.Text.Table.{Table, table_get, table_set, table_get-set}
use royale_ai_platform.Inventory.Classifiers.{is_inactive}
use royale_ai_platform.Sales.{
  Priority, low, medium, high, critical, ProductPerformance, SalesOpportunity,
}
use royale_ai_platform.Sales.Service.{
  Analysis, comes_after, index_from, build_summary, find_opportunities, analyze, push_opportunity,
  build_opportunity, priority_order,
}

module _ {N : Type 0} (num : Numbers N) (laws : AreOrdered num) where
  comes_after-asymmetric :
      (a b : SalesOpportunity N) → comes_after num a b ≡ true → comes_after num b a ≡ false
  comes_after-asymmetric a b h =
      let p = a.confidence in
      let q = b.confidence in ground (arith, laws.lt-le p q, laws.lt-le q p, laws.le-total q p)

  comes_after-transitive :
      (a b c : SalesOpportunity N)
      → comes_after num a b ≡ false
      → comes_after num b c ≡ false
      → comes_after num a c ≡ false
  comes_after-transitive a b c h k =
      let p = a.confidence in
      let q = b.confidence in
      let r = c.confidence in
      ground (arith, laws.lt-le p q, laws.lt-le q r, laws.lt-le p r, laws.le-trans r q p)

  comes_after-IsComparison : IsComparison (comes_after num)
  comes_after-IsComparison = record {
    asymmetric = comes_after-asymmetric;
    transitive = comes_after-transitive;
  }

  -- How pressing each priority is.
  abbrev pub pressing : Priority → ℕ
  pressing critical = 3
  pressing high = 2
  pressing medium = 1
  pressing low = 0

  -- The first is more pressing than the second, or as pressing and no less certain.
  abbrev pub GoesBefore : SalesOpportunity N → SalesOpportunity N → Type 0
  GoesBefore a b =
      (pressing b.priority < pressing a.priority)
      ⊎ ((pressing a.priority ≡ pressing b.priority) × (num.le b.confidence a.confidence ≡ true))

  order-pressing : (p : Priority) → priority_order p ≡ pressing p + 1
  order-pressing critical = refl
  order-pressing high = refl
  order-pressing medium = refl
  order-pressing low = refl

  goes_before : (a b : SalesOpportunity N) → comes_after num a b ≡ false → GoesBefore a b
  goes_before a b h = ground (
    arith,
    laws.lt-le a.confidence b.confidence,
    order-pressing a.priority,
    order-pressing b.priority,
  )

  -- The last of the analyses of a product.
  abbrev pub stock_of : Text → List (InventoryAnalysis N) → Option (InventoryAnalysis N)
  stock_of id [] = none
  stock_of id (inv ∷ rest) = elim (stock_of id rest) [
    | some later ↦ some later
    | none ↦ if text_eq inv.base.product_id id then some inv else none
  ]

  -- The product is in stock as an active one, and has been seen or sold.
  abbrev pub is_live : ProductPerformance N → Option (InventoryAnalysis N) → Bool
  is_live perf none = false
  is_live perf (some inv) =
      not (is_inactive inv.base.stock_status)
      && (num.lt (whole num 0) perf.views || num.lt (whole num 0) perf.revenue)

  or_else :
      Option (InventoryAnalysis N) → Option (InventoryAnalysis N) → Option (InventoryAnalysis N)
  or_else none o = o
  or_else (some a) o = some a

  stock_of-cons :
      (id : Text) (inv : InventoryAnalysis N) (rest : List (InventoryAnalysis N))
      (o : Option (InventoryAnalysis N))
      → or_else (stock_of id rest) (if text_eq inv.base.product_id id then some inv else o)
        ≡ or_else (stock_of id (inv ∷ rest)) o
  unfolding or_else
  stock_of-cons id inv rest o = elim (Option-cases (stock_of id rest)) [
    | inr (later, found) ↦ rw found refl
    | inl nothing ↦ elim (Bool-cases (text_eq inv.base.product_id id)) [
      | inl same ↦ rw (nothing, same) refl
      | inr other ↦ rw (nothing, other) refl
    ]
  ]

  index_from-last :
      (id : Text) (inventory : List (InventoryAnalysis N)) (table : Table (InventoryAnalysis N))
      → table_get id (index_from num table inventory)
        ≡ or_else (stock_of id inventory) (table_get id table)
  unfolding index_from or_else
  index_from-last id [] table = refl
  index_from-last id (inv ∷ rest) table =
      index_from-last id rest (table_set inv.base.product_id inv table)
      ∙ (rw (table_get-set inv.base.product_id id inv table)
          (stock_of-cons id inv rest (table_get id table)))

  index_of :
      (id : Text) (inventory : List (InventoryAnalysis N))
      → table_get id (index_from num [] inventory) ≡ stock_of id inventory
  unfolding table_get or_else
  index_of id inventory = index_from-last id inventory [] ∙ whole_of (stock_of id inventory)
    where
      whole_of : (o : Option (InventoryAnalysis N)) → or_else o none ≡ o
      whole_of none = refl
      whole_of (some a) = refl

  abbrev pub opportunity_ids : List (SalesOpportunity N) → List Text
  opportunity_ids found = map (λ (o : SalesOpportunity N). o.id) found

  -- The ids of the opportunities of the products that are live.
  abbrev pub live_ids : List (InventoryAnalysis N) → List (ProductPerformance N) → List Text
  live_ids inventory [] = []
  live_ids inventory (perf ∷ rest) =
      let others = live_ids inventory rest in
      if is_live perf (stock_of perf.product_id inventory)
      then (text "sales-opp-" ++ perf.product_id) ∷ others
      else others

  pushed-live :
      (to_fixed : N → ℕ → Text) (perf : ProductPerformance N) (o : Option (InventoryAnalysis N))
      (more : List (SalesOpportunity N))
      → opportunity_ids (push_opportunity num to_fixed perf o ++ more) ≡ (
          if is_live perf o
          then (text "sales-opp-" ++ perf.product_id) ∷ opportunity_ids more
          else opportunity_ids more)
  unfolding build_opportunity
  pushed-live to_fixed perf none more = refl
  pushed-live to_fixed perf (some inv) more =
      let seen = laws.lt-le (whole num 0) perf.views in
      let sold = laws.lt-le (whole num 0) perf.revenue in
      elim (Bool-cases (is_inactive inv.base.stock_status)) [
        | inl gone ↦ rw gone refl
        | inr there ↦ elim (Bool-cases (num.le perf.views (whole num 0))) [
          | inl unseen ↦ elim (Bool-cases (num.le perf.revenue (whole num 0))) [
            | inl unsold ↦ rw (there, seen, sold, unseen, unsold) refl
            | inr is_sold ↦ rw (there, seen, sold, unseen, is_sold) refl
          ]
          | inr is_seen ↦ rw (there, seen, is_seen) refl
        ]
      ]

  find_opportunities-live :
      (to_fixed : N → ℕ → Text) (inventory : List (InventoryAnalysis N))
      (products : List (ProductPerformance N))
      → opportunity_ids (find_opportunities num to_fixed (index_from num [] inventory) products)
        ≡ live_ids inventory products
  unfolding find_opportunities
  find_opportunities-live to_fixed inventory [] = refl
  find_opportunities-live to_fixed inventory (perf ∷ rest) =
      rw
        (
          pushed-live to_fixed perf (table_get perf.product_id (index_from num [] inventory))
              (find_opportunities num to_fixed (index_from num [] inventory) rest),
          index_of perf.product_id inventory,
          find_opportunities-live to_fixed inventory rest,
        )
        refl

  build_summary-length :
      (found : List (SalesOpportunity N))
      → (build_summary num found).products_analyzed ≡ length found
  unfolding build_summary
  build_summary-length [] = refl
  build_summary-length (o ∷ rest) = refl

  -- If the numbers are ordered, then the opportunities have the ids of the products whose last analysis
  -- is active and that have been seen or sold, each as often as it is there; the more pressing ones
  -- stand before the others, and of equally pressing ones those of higher confidence; the summary
  -- counts them all.
  pub analyze-IsSorted :
      (to_fixed : N → ℕ → Text) (products : List (ProductPerformance N))
      (inventory : List (InventoryAnalysis N)) (out : Analysis N)
      → analyze num to_fixed products inventory ≡ out
      → IsPairwise GoesBefore out.opportunities
        × Perm (opportunity_ids out.opportunities) (live_ids inventory products)
        × (out.summary.products_analyzed ≡ length out.opportunities)
  unfolding analyze
  analyze-IsSorted to_fixed products inventory out e =
      let found = find_opportunities num to_fixed (index_from num [] inventory) products in
      let sorted = sort (comes_after num) found in
      let ids : Perm (opportunity_ids sorted) (opportunity_ids found) =
        Perm.map _ (sort-perm (comes_after num) found) in
      rw (← e) (
        IsSorted-IsPairwise (comes_after num) GoesBefore goes_before sorted
            (sort-IsSorted (comes_after num) comes_after-IsComparison found),
        rw (← find_opportunities-live to_fixed inventory products) ids,
        build_summary-length sorted,
      )
