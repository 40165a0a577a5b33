-- ===== src/Prelude/Sorting.antt =====
-- `Array.prototype.sort`, which is stable, by a comparison, and `slice(0, n)`.
use Prim.Native.Nat.{ℕ, zero, suc, ◌≤◌}
use mathlib.Core.Path.{◌≡◌, refl}
use mathlib.Core.Logic.{◌⊎◌, inl, inr}
use mathlib.Core.Bool.{Bool, true, false}
use mathlib.Core.List.{List, [], ◌∷◌, ◌++◌, Perm}
use mathlib.Core.List.Perm
use native.Mathlib.Omega.{arith}
use royale_ai_platform.Prelude.Tests.{if◌then◌else◌, Bool-cases}
use royale_ai_platform.Prelude.Lists.{length, All}

module _ {ℓ} {A : Type ℓ} where
  -- `slice(0, n)` and `slice(n)`
  abbrev pub take : ℕ → List A → List A
  take zero xs = []
  take (suc n) [] = []
  take (suc n) (x ∷ xs) = x ∷ take n xs

  abbrev pub drop : ℕ → List A → List A
  drop zero xs = xs
  drop (suc n) [] = []
  drop (suc n) (x ∷ xs) = drop n xs

  pub length-take_le : (n : ℕ) (xs : List A) → length (take n xs) ≤ n
  length-take_le zero xs = omega arith
  length-take_le (suc n) [] = omega arith
  length-take_le (suc n) (x ∷ xs) = omega (arith, length-take_le n xs)

  pub take-full : (n : ℕ) (xs : List A) → (length (take n xs) ≡ n) ⊎ (drop n xs ≡ [])
  take-full zero xs = inl refl
  take-full (suc n) [] = inr refl
  take-full (suc n) (x ∷ xs) = elim (take-full n xs) [
    | inl full ↦ inl (omega (arith, full))
    | inr e ↦ inr e
  ]

  pub All-map {κ μ} :
      {P : A → Type κ} {Q : A → Type μ}
      → ((a : A) → P a → Q a)
      → (xs : List A) → All P xs
      → All Q xs
  All-map f [] h = tt
  All-map f (x ∷ xs) (p, h) = (f x p, All-map f xs h)

  -- Each item stands in the relation to all that come after it.
  abbrev pub IsPairwise {κ} : (A → A → Type κ) → List A → Type (ℓ ⊔ κ)
  IsPairwise R [] = Unit
  IsPairwise R (x ∷ xs) = All (R x) xs × IsPairwise R xs

  pub take_all : (n : ℕ) (xs : List A) → length xs ≤ n → take n xs ≡ xs
  take_all zero [] h = refl
  take_all zero (x ∷ xs) h = absurd (omega (arith, h))
  take_all (suc n) [] h = refl
  take_all (suc n) (x ∷ xs) h = rw (take_all n xs (omega (arith, h))) refl

  pub take-append-drop : (n : ℕ) (xs : List A) → take n xs ++ drop n xs ≡ xs
  take-append-drop zero xs = refl
  take-append-drop (suc n) [] = refl
  take-append-drop (suc n) (x ∷ xs) = rw (take-append-drop n xs) refl

  All-drop {κ} : (P : A → Type κ) (n : ℕ) (xs : List A) → All P xs → All P (drop n xs)
  All-drop P zero xs h = h
  All-drop P (suc n) [] h = h
  All-drop P (suc n) (x ∷ xs) h = All-drop P n xs h.1

  All-take {κ} : (P : A → Type κ) (n : ℕ) (xs : List A) → All P xs → All P (take n xs)
  All-take P zero xs h = tt
  All-take P (suc n) [] h = tt
  All-take P (suc n) (x ∷ xs) h = (h.0, All-take P n xs h.1)

-- `after a b`: the comparison of the two is positive, so that `a` has to come later.
module _ {ℓ} {A : Type ℓ} (after : A → A → Bool) where
  unfoldable pub insert : A → List A → List A
  insert x [] = x ∷ []
  insert x (y ∷ ys) = let rest = insert x ys in if after x y then y ∷ rest else x ∷ y ∷ ys

  unfoldable pub sort : List A → List A
  sort [] = []
  sort (x ∷ xs) = insert x (sort xs)

  -- Nothing stands before an item that has to come earlier.
  abbrev pub IsSorted : List A → Type ℓ
  IsSorted [] = Unit
  IsSorted (x ∷ xs) = All (λ y. after x y ≡ false) xs × IsSorted xs

  -- The comparison is that of a total order on some key.
  pub record IsComparison : Type ℓ where
    pub asymmetric : (a b : A) → after a b ≡ true → after b a ≡ false
    pub transitive : (a b c : A) → after a b ≡ false → after b c ≡ false → after a c ≡ false

module _ {ℓ} {A : Type ℓ} (after : A → A → Bool) where
  insert-perm : (x : A) (xs : List A) → Perm (insert after x xs) (x ∷ xs)
  unfolding insert
  insert-perm x [] = Perm.rfl
  insert-perm x (y ∷ ys) = elim (Bool-cases (after x y)) [
    | inl e ↦ rw e (Perm.trans (Perm.cons y (insert-perm x ys)) (Perm.swap x y ys))
    | inr e ↦ rw e Perm.rfl
  ]

  pub sort-nil : sort after [] ≡ []
  unfolding sort
  sort-nil = refl

  pub sort-perm : (xs : List A) → Perm (sort after xs) xs
  unfolding sort
  sort-perm [] = Perm.rfl
  sort-perm (x ∷ xs) = Perm.trans (insert-perm x (sort after xs)) (Perm.cons x (sort-perm xs))

  insert-All {κ} :
      (P : A → Type κ) (x : A) (xs : List A) → P x → All P xs → All P (insert after x xs)
  unfolding insert
  insert-All P x [] p h = (p, h)
  insert-All P x (y ∷ ys) p h = elim (Bool-cases (after x y)) [
    | inl e ↦ rw e (h.0, insert-All P x ys p h.1)
    | inr e ↦ rw e (p, h)
  ]

  pub sort-All {κ} : (P : A → Type κ) (xs : List A) → All P xs → All P (sort after xs)
  unfolding sort
  sort-All P [] h = h
  sort-All P (x ∷ xs) h = insert-All P x (sort after xs) h.0 (sort-All P xs h.1)

  insert-length : (x : A) (xs : List A) → length (insert after x xs) ≡ suc (length xs)
  unfolding insert
  insert-length x [] = refl
  insert-length x (y ∷ ys) = elim (Bool-cases (after x y)) [
    | inl e ↦ rw e (omega (arith, insert-length x ys))
    | inr e ↦ rw e refl
  ]

  pub sort-length : (xs : List A) → length (sort after xs) ≡ length xs
  unfolding sort
  sort-length [] = refl
  sort-length (x ∷ xs) = omega (arith, insert-length x (sort after xs), sort-length xs)

  module _ (laws : IsComparison after) where
    below_head :
        (x y : A) (ys : List A)
        → after x y ≡ false
        → All (λ z. after y z ≡ false) ys
        → All (λ z. after x z ≡ false) ys
    below_head x y [] h hs = tt
    below_head x y (z ∷ zs) h hs = (laws.transitive x y z h hs.0, below_head x y zs h hs.1)

    insert-IsSorted : (x : A) (xs : List A) → IsSorted after xs → IsSorted after (insert after x xs)
    unfolding insert
    insert-IsSorted x [] h = (tt, tt)
    insert-IsSorted x (y ∷ ys) h = elim (Bool-cases (after x y)) [
      | inl e ↦ rw e (
        insert-All (λ z. after y z ≡ false) x ys (laws.asymmetric x y e) h.0,
        insert-IsSorted x ys h.1,
      )
      | inr e ↦ rw e ((e, below_head x y ys e h.0), h)
    ]

    pub sort-IsSorted : (xs : List A) → IsSorted after (sort after xs)
    unfolding sort
    sort-IsSorted [] = tt
    sort-IsSorted (x ∷ xs) = insert-IsSorted x (sort after xs) (sort-IsSorted xs)

  -- Of a sorted list, nothing that is kept has to come after something that is cut off.
  pub IsSorted-take :
      (n : ℕ) (xs : List A)
      → IsSorted after xs
      → All (λ x. All (λ y. after x y ≡ false) (drop n xs)) (take n xs)
  IsSorted-take zero xs h = tt
  IsSorted-take (suc n) [] h = tt
  IsSorted-take (suc n) (x ∷ xs) h =
      (All-drop (λ y. after x y ≡ false) n xs h.0, IsSorted-take n xs h.1)

  pub take-IsSorted : (n : ℕ) (xs : List A) → IsSorted after xs → IsSorted after (take n xs)
  take-IsSorted zero xs h = tt
  take-IsSorted (suc n) [] h = tt
  take-IsSorted (suc n) (x ∷ xs) h =
      (All-take (λ y. after x y ≡ false) n xs h.0, take-IsSorted n xs h.1)

  -- The items that a sort puts first: no more than asked for, in order, and before those left out,
  -- which there are only if as many are kept as are asked for.
  pub take-sort :
      IsComparison after
      → (n : ℕ) (xs top : List A) → take n (sort after xs) ≡ top
      → (length top ≤ n)
        × IsSorted after top
        × (others : List A) × Perm (top ++ others) xs
        × All (λ x. All (λ y. after x y ≡ false) others) top
        × ((length top ≡ n) ⊎ (others ≡ []))
  take-sort comparison n xs top e =
      let sorted = sort after xs in
      let in_order = sort-IsSorted comparison xs in
      rw (← e) (
        length-take_le n sorted,
        take-IsSorted n sorted in_order,
        drop n sorted,
        rw (take-append-drop n sorted) (sort-perm xs),
        IsSorted-take n sorted in_order,
        take-full n sorted,
      )

  -- What the comparison of a sort says of two items, said of all that stand in that order.
  pub IsSorted-IsPairwise {κ} :
      (R : A → A → Type κ)
      → ((a b : A) → after a b ≡ false → R a b)
      → (xs : List A) → IsSorted after xs
      → IsPairwise R xs
  IsSorted-IsPairwise R f [] h = tt
  IsSorted-IsPairwise R f (x ∷ xs) (below, h) =
      (All-map (f x) xs below, IsSorted-IsPairwise R f xs h)
