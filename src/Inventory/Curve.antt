-- ===== src/Inventory/Curve.antt =====
-- The ABC curve: along the products by value, the class of `classifyAbc` only gets worse.
use royale_ai_platform.Prelude.{
  ℕ, ◌≤◌, Bool, true, false, ◌&&◌, List, [], ◌∷◌, ◌≡◌, refl, sym, ◌∙◌, inl, inr, arith, ltb,
  Bool-cases, sort, sort-All, sort-perm, sort-IsSorted, IsSorted, IsPairwise, IsSorted-IsPairwise,
  IsComparison, All,
}
use mathlib.Core.List.{Perm}
use royale_ai_platform.Text.{Text}
use royale_ai_platform.Numbers.{Numbers, whole, AreOrdered, sum_from}
use royale_ai_platform.Inventory.{AbcClass, class_a, class_b, class_c}
use royale_ai_platform.Inventory.Classifiers.{
  Valued, abc_class_of, abc_loop, abc_entries, a_limit, b_limit, sells_less, sales_values, all_c,
}

abbrev pub rank : AbcClass → ℕ
rank class_a = 0
rank class_b = 1
rank class_c = 2

-- `after` for the entries: the class of the first is worse.
abbrev pub is_worse : Text × AbcClass → Text × AbcClass → Bool
is_worse x y = ltb (rank y.1) (rank x.1)

module _ {N : Type 0} (num : Numbers N) (laws : AreOrdered num) where
  open num use {add, div, lt, le, eq}

  -- No product has a negative value.
  abbrev pub AreValues : List (Valued N) → Type 0
  AreValues ps = All (λ p. le (whole num 0) p.sales_value ≡ true) ps

  -- Where the previous fraction has passed a limit, the class is no better than this.
  Passed : AbcClass → N → Type 0
  Passed class_a f = Unit
  Passed class_b f = le f (a_limit num) ≡ false
  Passed class_c f = (le f (a_limit num) ≡ false) × (le f (b_limit num) ≡ false)

  not_le : (a b c : N) → le a c ≡ false → le a b ≡ true → le b c ≡ false
  not_le a b c h up = elim (Bool-cases (le b c)) [
    | inl e ↦ absurd (let t = laws.le-trans a b c up e in ground arith)
    | inr e ↦ e
  ]

  not_lt : (a b : N) → le a b ≡ false → lt a b ≡ false
  not_lt a b h = let back = laws.le-total a b h in rw (laws.lt-le a b, back) refl

  class-Passed : (f p : N) → Passed (abc_class_of num f p) f
  unfolding abc_class_of Passed
  class-Passed f p = elim (Bool-cases (le f (a_limit num))) [
    | inl e ↦ rw e tt
    | inr e ↦ elim (Bool-cases (lt p (a_limit num))) [
      | inl e1 ↦ rw (e, e1) tt
      | inr e1 ↦ elim (Bool-cases (le f (b_limit num))) [
        | inl e2 ↦ rw (e, e1, e2) e
        | inr e2 ↦ elim (Bool-cases (lt p (b_limit num))) [
          | inl e3 ↦ rw (e, e1, e2, e3) e
          | inr e3 ↦ rw (e, e1, e2, e3) (e, e2)
        ]
      ]
    ]
  ]

  rank-Passed :
      (c : AbcClass) (f p : N)
      → le p f ≡ true
      → Passed c p
      → (rank c ≤ rank (abc_class_of num f p)) × Passed c f
  unfolding abc_class_of Passed
  rank-Passed class_a f p up h = (omega arith, tt)
  rank-Passed class_b f p up h =
      let e = not_le p f (a_limit num) h up in
      let e1 = not_lt p (a_limit num) h in (rw (e, e1) (ground arith), e)
  rank-Passed class_c f p up (ha, hb) =
      let e = not_le p f (a_limit num) ha up in
      let e1 = not_lt p (a_limit num) ha in
      let e2 = not_le p f (b_limit num) hb up in
      let e3 = not_lt p (b_limit num) hb in (rw (e, e1, e2, e3) (omega arith), (e, e2))

  module _ (total : N) (positive : lt (whole num 0) total ≡ true) where
    fraction-le :
        (cumulative v : N)
        → le (whole num 0) v ≡ true
        → le (div cumulative total) (div (add cumulative v) total) ≡ true
    fraction-le cumulative v h = laws.le-div _ _ total positive (laws.le-add cumulative v h)

    abc_loop-above :
        (x : Text × AbcClass) (cumulative : N) (ps : List (Valued N))
        → AreValues ps
        → Passed (x.1) (div cumulative total)
        → All (λ y. is_worse x y ≡ false) (abc_loop num total cumulative ps)
    unfolding abc_loop
    abc_loop-above x cumulative [] h k = tt
    abc_loop-above x cumulative (p ∷ ps) h k =
        let (above, passed) = rank-Passed x.1 _ _ (fraction-le cumulative p.sales_value h.0) k in
        (ground arith, abc_loop-above x (add cumulative p.sales_value) ps h.1 passed)

    abc_loop-IsSorted :
        (cumulative : N) (ps : List (Valued N))
        → AreValues ps
        → IsSorted is_worse (abc_loop num total cumulative ps)
    unfolding abc_loop
    abc_loop-IsSorted cumulative [] h = tt
    abc_loop-IsSorted cumulative (p ∷ ps) h = (
      abc_loop-above (p.product_id, abc_class_of num _ _) (add cumulative p.sales_value) ps h.1
          (class-Passed _ _),
      abc_loop-IsSorted (add cumulative p.sales_value) ps h.1,
    )

  sum_from-positive :
      (start : N) (ps : List (Valued N))
      → AreValues ps
      → le (whole num 0) start ≡ true
      → le (whole num 0) (sum_from num start (sales_values num ps)) ≡ true
  unfolding sum_from
  sum_from-positive start [] h k = k
  sum_from-positive start (p ∷ ps) h k =
      sum_from-positive (add start p.sales_value) ps h.1
        (laws.le-trans _ start _ k (laws.le-add start p.sales_value h.0))

  all_c-above :
      (x : Text × AbcClass) (ps : List (Valued N))
      → rank x.1 ≡ 2
      → All (λ y. is_worse x y ≡ false) (all_c num ps)
  all_c-above x [] e = tt
  all_c-above x (p ∷ ps) e = (rw e refl, all_c-above x ps e)

  all_c-IsSorted : (ps : List (Valued N)) → IsSorted is_worse (all_c num ps)
  all_c-IsSorted [] = tt
  all_c-IsSorted (p ∷ ps) = (all_c-above (p.product_id, class_c) ps refl, all_c-IsSorted ps)

  -- The sum of the values, as `classifyAbc` computes it.
  abbrev pub total_value : List (Valued N) → N
  total_value products =
      sum_from num (whole num 0) (sales_values num (sort (sells_less num) products))

  -- The first entry, if there is one, is of class A.
  abbrev pub IsLedByA : List (Text × AbcClass) → Type 0
  IsLedByA [] = Unit
  IsLedByA ((id, c) ∷ rest) = c ≡ class_a

  class_of_start : (f p : N) → lt p (a_limit num) ≡ true → abc_class_of num f p ≡ class_a
  unfolding abc_class_of
  class_of_start f p h = elim (Bool-cases (le f (a_limit num))) [
    | inl e ↦ rw e refl
    | inr e ↦ rw (e, h) refl
  ]

  positive_of :
      (t : N) → le (whole num 0) t ≡ true → eq t (whole num 0) ≡ false → lt (whole num 0) t ≡ true
  positive_of t h e =
      let e' : (le t (whole num 0) && le (whole num 0) t) ≡ false =
        sym (laws.eq-le t (whole num 0)) ∙ e in
      rw (laws.lt-le (whole num 0) t) (ground arith)

  abc_loop-IsLedByA :
      (total : N) (ps : List (Valued N))
      → lt (whole num 0) total ≡ true
      → IsLedByA (abc_loop num total (whole num 0) ps)
  unfolding abc_loop abc_class_of
  abc_loop-IsLedByA total [] h = tt
  abc_loop-IsLedByA total (p ∷ ps) h =
      class_of_start _ _ (rw (laws.div-zero total h) (laws.positive_fraction))

  -- The value of the second is no higher.
  abbrev pub SellsAtLeast : Valued N → Valued N → Type 0
  SellsAtLeast x y = le y.sales_value x.sales_value ≡ true

  at_least : (x y : Valued N) → sells_less num x y ≡ false → SellsAtLeast x y
  at_least x y h = ground (arith, laws.lt-le x.sales_value y.sales_value)

  sells_less-IsComparison : IsComparison (sells_less num)
  sells_less-IsComparison = record {
    asymmetric = λ a b h. ground (
      arith,
      laws.lt-le a.sales_value b.sales_value,
      laws.lt-le b.sales_value a.sales_value,
      laws.le-total b.sales_value a.sales_value,
    );
    transitive = λ a b c h k. ground (
      arith,
      laws.lt-le a.sales_value b.sales_value,
      laws.lt-le b.sales_value c.sales_value,
      laws.lt-le a.sales_value c.sales_value,
      laws.le-trans c.sales_value b.sales_value a.sales_value,
    );
  }

  abbrev pub entry_ids : List (Text × AbcClass) → List Text
  entry_ids [] = []
  entry_ids ((id, c) ∷ entries) = id ∷ entry_ids entries

  abbrev pub product_ids : List (Valued N) → List Text
  product_ids [] = []
  product_ids (p ∷ ps) = p.product_id ∷ product_ids ps

  entry_ids-all_c : (ps : List (Valued N)) → entry_ids (all_c num ps) ≡ product_ids ps
  entry_ids-all_c [] = refl
  entry_ids-all_c (p ∷ ps) = rw (entry_ids-all_c ps) refl

  entry_ids-abc_loop :
      (total cumulative : N) (ps : List (Valued N))
      → entry_ids (abc_loop num total cumulative ps) ≡ product_ids ps
  unfolding abc_loop
  entry_ids-abc_loop total cumulative [] = refl
  entry_ids-abc_loop total cumulative (p ∷ ps) =
      rw (entry_ids-abc_loop total (add cumulative p.sales_value) ps) refl

  curve :
      (products : List (Valued N))
      → AreValues products
      → (entry_ids (abc_entries num products) ≡ product_ids (sort (sells_less num) products))
        × IsSorted is_worse (abc_entries num products)
        × (eq (total_value products) (whole num 0) ≡ false → IsLedByA (abc_entries num products))
  unfolding abc_entries
  curve products h =
      let values =
        sort-All (sells_less num) (λ p. le (whole num 0) p.sales_value ≡ true) products h in
      let sum = sum_from-positive (whole num 0) _ values (laws.le-refl _) in
      elim (Bool-cases (eq (total_value products) (whole num 0))) [
        | inl e ↦ rw e (entry_ids-all_c _, all_c-IsSorted _, λ n. absurd (ground arith))
        | inr e ↦
            let positive : lt (whole num 0) (total_value products) ≡ true = positive_of _ sum e in
            rw e (
              entry_ids-abc_loop _ _ _,
              abc_loop-IsSorted _ positive (whole num 0) _ values,
              λ n. abc_loop-IsLedByA _ _ positive,
            )
      ]

  -- If the numbers are ordered and no value is negative, then the entries are those of the products by
  -- falling value, along which the class only gets worse, and unless the sum of the values is zero the
  -- first product is of class A.
  pub abc_entries-IsSorted :
      (products : List (Valued N))
      → AreValues products
      → (sorted : List (Valued N)) × Perm sorted products
        × IsPairwise SellsAtLeast sorted
        × (entry_ids (abc_entries num products) ≡ product_ids sorted)
        × IsSorted is_worse (abc_entries num products)
        × (eq (total_value products) (whole num 0) ≡ false → IsLedByA (abc_entries num products))
  abc_entries-IsSorted products h =
      let (ids, worse, led) = curve products h in
      (
        sort (sells_less num) products,
        sort-perm (sells_less num) products,
        IsSorted-IsPairwise (sells_less num) SellsAtLeast at_least (sort (sells_less num) products)
            (sort-IsSorted (sells_less num) sells_less-IsComparison products),
        ids,
        worse,
        led,
      )
