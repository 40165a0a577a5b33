-- ===== src/Executive/Generating/Best.antt =====
-- Which of the insights `deduplicate` keeps.
use royale_ai_platform.Prelude.{
  Bool, true, false, Option, none, some, List, [], ◌∷◌, ◌≡◌, refl, sym, ◌∙◌, ap, inl, inr, arith,
  if◌then◌else◌, Bool-cases, filter, All,
}
use royale_ai_platform.Text.{Text, text_eq, text_eq_iff, text_eq_sym, text_eq_refl}
use royale_ai_platform.Text.Table.{Table, table_get, table_set, table_get-set}
use royale_ai_platform.Numbers.{Numbers, AreOrdered}
use royale_ai_platform.Executive.{ExecutiveInsight}
use royale_ai_platform.Executive.Generating.{
  insight_key, is_better, dedupe_step, dedupe_loop, deduplicate, table_values,
}

module _ {N : Type 0} where
  abbrev pub has_key : Text → ExecutiveInsight N → Bool
  has_key key i = text_eq (insight_key i) key

  -- Every entry stands under its own key, and once.
  abbrev IsKeyed : Table (ExecutiveInsight N) → Type 0
  IsKeyed [] = Unit
  IsKeyed ((k, i) ∷ t) = (insight_key i ≡ k) × (table_get k t ≡ none) × IsKeyed t

  abbrev pub to_list : Option (ExecutiveInsight N) → List (ExecutiveInsight N)
  to_list none = []
  to_list (some i) = i ∷ []

  table_set-IsKeyed :
      (i : ExecutiveInsight N) (t : Table (ExecutiveInsight N))
      → IsKeyed t
      → IsKeyed (table_set (insight_key i) i t)
  unfolding table_set table_get
  table_set-IsKeyed i [] h = (refl, refl, tt)
  table_set-IsKeyed i ((k, u) ∷ t) h = elim (Bool-cases (text_eq k (insight_key i))) [
    | inl e ↦
        let same : k ≡ insight_key i = (text_eq_iff k (insight_key i)).0 e in
        rw e (sym same, h.1, h.2)
    | inr e ↦ rw e (
      h.0,
      rw (table_get-set (insight_key i) k i t, text_eq_sym (insight_key i) k, e) h.1,
      table_set-IsKeyed i t h.2,
    )
  ]

  filter-values :
      (key : Text) (t : Table (ExecutiveInsight N))
      → IsKeyed t
      → filter (has_key key) (table_values t) ≡ to_list (table_get key t)
  unfolding table_get
  filter-values key [] h = refl
  filter-values key ((k, i) ∷ t) h =
      let ih = filter-values key t h.2 in
      elim (Bool-cases (text_eq k key)) [
        | inl e ↦
            let same : k ≡ key = (text_eq_iff k key).0 e in
            let gone : table_get key t ≡ none = rw (← same) h.1 in
            let own : has_key key i ≡ true = rw h.0 e in rw (own, e, ih, gone) refl
        | inr e ↦ let own : has_key key i ≡ false = rw h.0 e in rw (own, e) ih
      ]

module _ {N : Type 0} (num : Numbers N) (laws : AreOrdered num) where
  open num use {lt, le}

  -- The better of two, the first of those of one priority.
  abbrev pub better : ExecutiveInsight N → Option (ExecutiveInsight N) → ExecutiveInsight N
  better i none = i
  better i (some j) = if lt j.priority i.priority then i else j

  unfoldable pub best_from :
      Option (ExecutiveInsight N) → List (ExecutiveInsight N) → Option (ExecutiveInsight N)
  best_from o [] = o
  best_from o (i ∷ rest) = best_from (some (better i o)) rest

  dedupe_step-IsKeyed :
      (i : ExecutiveInsight N) (seen : Table (ExecutiveInsight N))
      → IsKeyed seen
      → IsKeyed (dedupe_step num i seen)
  unfolding dedupe_step
  dedupe_step-IsKeyed i seen h =
      elim (Bool-cases (is_better num i (table_get (insight_key i) seen))) [
        | inl b ↦ rw b (table_set-IsKeyed i seen h)
        | inr b ↦ rw b h
      ]

  dedupe_loop-IsKeyed :
      (seen : Table (ExecutiveInsight N)) (xs : List (ExecutiveInsight N))
      → IsKeyed seen
      → IsKeyed (dedupe_loop num seen xs)
  unfolding dedupe_loop
  dedupe_loop-IsKeyed seen [] h = h
  dedupe_loop-IsKeyed seen (i ∷ xs) h =
      dedupe_loop-IsKeyed (dedupe_step num i seen) xs (dedupe_step-IsKeyed i seen h)

  dedupe_step-own :
      (i : ExecutiveInsight N) (seen : Table (ExecutiveInsight N)) (o : Option (ExecutiveInsight N))
      → table_get (insight_key i) seen ≡ o
      → table_get
          (insight_key i)
          (if is_better num i o then table_set (insight_key i) i seen else seen)
        ≡ some (better i o)
  dedupe_step-own i seen none e =
      rw (table_get-set (insight_key i) (insight_key i) i seen, text_eq_refl (insight_key i)) refl
  dedupe_step-own i seen (some j) e = elim (Bool-cases (lt j.priority i.priority)) [
    | inl b ↦
        rw (b, table_get-set (insight_key i) (insight_key i) i seen, text_eq_refl (insight_key i))
          refl
    | inr b ↦ rw (b, e) refl
  ]

  -- One turn of the loop, seen from one key.
  dedupe_step-get :
      (key : Text) (i : ExecutiveInsight N) (seen : Table (ExecutiveInsight N))
      → table_get key (dedupe_step num i seen)
        ≡ (if has_key key i then some (better i (table_get key seen)) else table_get key seen)
  unfolding dedupe_step
  dedupe_step-get key i seen = elim (Bool-cases (has_key key i)) [
    | inl e ↦
        let same : insight_key i ≡ key = (text_eq_iff (insight_key i) key).0 e in
        rw e (rw (← same) (dedupe_step-own i seen _ refl))
    | inr e ↦ elim (Bool-cases (is_better num i (table_get (insight_key i) seen))) [
      | inl b ↦ rw (b, e, table_get-set (insight_key i) key i seen, e) refl
      | inr b ↦ rw (b, e) refl
    ]
  ]

  table_get-dedupe_loop :
      (key : Text) (seen : Table (ExecutiveInsight N)) (xs : List (ExecutiveInsight N))
      → table_get key (dedupe_loop num seen xs)
        ≡ best_from (table_get key seen) (filter (has_key key) xs)
  unfolding dedupe_loop best_from
  table_get-dedupe_loop key seen [] = refl
  table_get-dedupe_loop key seen (i ∷ xs) =
      let step = dedupe_step-get key i seen in
      let ih = table_get-dedupe_loop key (dedupe_step num i seen) xs in
      elim (Bool-cases (has_key key i)) [
        | inl e ↦ rw (ih, step, e) refl
        | inr e ↦ rw (ih, step, e) refl
      ]

  best_from-le :
      (xs : List (ExecutiveInsight N)) (o : Option (ExecutiveInsight N)) (i j : ExecutiveInsight N)
      → o ≡ some j
      → best_from o xs ≡ some i
      → (le j.priority i.priority ≡ true) × All (λ x. le x.priority i.priority ≡ true) xs
  unfolding best_from
  best_from-le [] o i j is e = let same : j ≡ i = cc in (rw same (laws.le-refl i.priority), tt)
  best_from-le (x ∷ xs) o i j is e =
      let e' : best_from (some (better x (some j))) xs ≡ some i = rw is at e in
      let (best, rest) = best_from-le xs (some (better x (some j))) i (better x (some j)) refl e' in
      elim (Bool-cases (lt j.priority x.priority)) [
        | inl b ↦
            let top : le x.priority i.priority ≡ true = rw b at best in
            let up : le j.priority x.priority ≡ true =
              ground
                (arith, laws.lt-le j.priority x.priority, laws.le-total x.priority j.priority) in
            (laws.le-trans _ x.priority _ up top, (top, rest))
        | inr b ↦
            let top : le j.priority i.priority ≡ true = rw b at best in
            let up : le x.priority j.priority ≡ true =
              ground (arith, laws.lt-le j.priority x.priority) in
            (top, (laws.le-trans _ j.priority _ up top, rest))
      ]

  best_from-max :
      (xs : List (ExecutiveInsight N)) (i : ExecutiveInsight N)
      → best_from none xs ≡ some i
      → All (λ x. le x.priority i.priority ≡ true) xs
  unfolding best_from
  best_from-max [] i e = tt
  best_from-max (x ∷ xs) i e = best_from-le xs (some x) i x refl e

  -- `deduplicate` gives, of the insights that have a key, the one that is left when each is compared
  -- with the best before it; it has the highest priority of them. A key that no insight has is not
  -- there.
  pub filter-deduplicate :
      (key : Text) (xs : List (ExecutiveInsight N))
      → (filter (has_key key) (deduplicate num xs)
          ≡ to_list (best_from none (filter (has_key key) xs)))
        × ((i : ExecutiveInsight N)
            → best_from none (filter (has_key key) xs) ≡ some i
            → All (λ x. le x.priority i.priority ≡ true) (filter (has_key key) xs))
  unfolding deduplicate table_get
  filter-deduplicate key xs = (
    filter-values key _ (dedupe_loop-IsKeyed [] xs tt)
        ∙ ap to_list (table_get-dedupe_loop key [] xs),
    best_from-max (filter (has_key key) xs),
  )
