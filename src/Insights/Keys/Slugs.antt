-- ===== src/Insights/Keys/Slugs.antt =====
-- What the last part of an insight key is made of.
use royale_ai_platform.Prelude.{
  ℕ, zero, suc, ◌≤◌, Bool, true, false, [], ◌∷◌, ◌≡◌, refl, ◌⊎◌, inl, inr, arith, length, is_empty,
  ◌==◌, ◌&&◌, Bool-cases, All,
}
use royale_ai_platform.Text.{Text}
use royale_ai_platform.Insights.Keys.{
  Unicode, is_alphanumeric, dash, dash_runs, trim_front, trim_back, slice, slug,
}

-- A small letter, a digit or a dash.
abbrev pub IsSlugUnit : ℕ → Type 0
IsSlugUnit c = (is_alphanumeric c ≡ true) ⊎ (c ≡ dash)

dash_runs-All : (b : Bool) (s : Text) → All IsSlugUnit (dash_runs b s)
unfolding dash_runs
dash_runs-All b [] = tt
dash_runs-All b (c ∷ s) = elim (Bool-cases (is_alphanumeric c)) [
  | inl kept ↦ rw kept (inl kept, dash_runs-All false s)
  | inr replaced ↦ elim (Bool-cases b) [
    | inl again ↦ rw (replaced, again) (dash_runs-All true s)
    | inr first ↦ rw (replaced, first) (inr refl, dash_runs-All true s)
  ]
]

trim_front-All : (s : Text) → All IsSlugUnit s → All IsSlugUnit (trim_front s)
unfolding trim_front
trim_front-All [] h = tt
trim_front-All (c ∷ s) (h, hs) = elim (Bool-cases (c == dash)) [
  | inl gone ↦ rw gone (trim_front-All s hs)
  | inr kept ↦ rw kept (h, hs)
]

trim_back-All : (s : Text) → All IsSlugUnit s → All IsSlugUnit (trim_back s)
unfolding trim_back
trim_back-All [] h = tt
trim_back-All (c ∷ s) (h, hs) = elim (Bool-cases (c == dash && is_empty (trim_back s))) [
  | inl gone ↦ rw gone tt
  | inr kept ↦ rw kept (h, trim_back-All s hs)
]

slice-All : (n : ℕ) (s : Text) → All IsSlugUnit s → All IsSlugUnit (slice n s)
unfolding slice
slice-All zero s h = tt
slice-All (suc n) [] h = tt
slice-All (suc n) (c ∷ s) (h, hs) = (h, slice-All n s hs)

length-slice : (n : ℕ) (s : Text) → length (slice n s) ≤ n
unfolding slice
length-slice zero s = omega arith
length-slice (suc n) [] = omega arith
length-slice (suc n) (c ∷ s) = omega (arith, length-slice n s)

-- Whatever the content, the last part of its key has at most eighty code units, and each is a small
-- letter, a digit or a dash.
pub slug_bounds :
    (u : Unicode) (content : Text)
    → (length (slug u content) ≤ 80) × All IsSlugUnit (slug u content)
unfolding slug
slug_bounds u content =
    (length-slice 80 _, slice-All 80 _ (trim_back-All _ (trim_front-All _ (dash_runs-All false _))))
