-- ===== src/Text.antt =====
-- Texts of the source as lists of UTF-16 code units, and what the source does with them: comparison,
-- `split`, `String(n)` and `trim`.
pub mod Split
pub mod Search
pub mod Table
use Prim.Native.Nat.{ℕ, zero, suc, ◌+◌, ◌*◌, ◌-◌, ◌/◌, ◌%◌, ◌≤◌, ◌<◌}
use Prim.Native.Char.{code}
use Prim.Native.String.{String}
use mathlib.Core.Path.{◌≡◌, refl, ap, sym, ◌∙◌}
use mathlib.Core.Logic.{◌↔◌, ◌≢◌, inl, inr}
use mathlib.Core.Bool.{Bool, true, false, ◌&&◌}
use mathlib.Core.List.{List, [], ◌∷◌, ◌++◌}
use native.Mathlib.Omega.{arith}
use royale_ai_platform.Prelude.{ltb, ◌==◌, if◌then◌else◌, Bool-cases}
use royale_ai_platform.Prelude.{All, All-append}

abbrev pub Text : Type 0
Text = List ℕ

-- The code units of a literal of the source; every literal there is in the basic plane.
abbrev pub text : String → Text
text String.[] = []
text (String.◌∷◌ c s) = code c ∷ text s

-- `===` on texts
unfoldable pub text_eq : Text → Text → Bool
text_eq [] [] = true
text_eq (a ∷ s) (b ∷ t) = a == b && text_eq s t
text_eq _ _ = false

pub text_eq_iff : (s t : Text) → (text_eq s t ≡ true) ↔ (s ≡ t)
unfolding text_eq
text_eq_iff [] [] = (λ _. refl, λ _. refl)
text_eq_iff [] (b ∷ t) = (λ h. cc, λ h. cc)
text_eq_iff (a ∷ s) [] = (λ h. cc, λ h. cc)
text_eq_iff (a ∷ s) (b ∷ t) = ground (arith, text_eq_iff s t)

pub text_eq_refl : (s : Text) → text_eq s s ≡ true
text_eq_refl s = (text_eq_iff s s).1 refl

pub text_eq_sym : (s t : Text) → text_eq s t ≡ text_eq t s
text_eq_sym s t = ground (arith, text_eq_iff s t, text_eq_iff t s)

-- `String(n)` for a natural number, with fuel for the digits; `n` rounds are more than enough.
unfoldable pub show_fuel : ℕ → ℕ → Text
show_fuel zero n = []
show_fuel (suc f) n =
    let rest = show_fuel f (n / 10) ++ (48 + n % 10) ∷ [] in
    if ltb n 10 then (48 + n) ∷ [] else rest

unfoldable pub show : ℕ → Text
unfolding show_fuel
show n = show_fuel (suc n) n

-- The number that a run of decimal digits stands for, read from the left.
unfoldable pub digits_value : ℕ → Text → ℕ
digits_value acc [] = acc
digits_value acc (d ∷ s) = digits_value (acc * 10 + (d - 48)) s

digits_value-append :
    (acc : ℕ) (s t : Text) → digits_value acc (s ++ t) ≡ digits_value (digits_value acc s) t
unfolding digits_value
digits_value-append acc [] t = refl
digits_value-append acc (d ∷ s) t = digits_value-append (acc * 10 + (d - 48)) s t

digits_value-show_fuel : (f n : ℕ) → n < f → digits_value 0 (show_fuel f n) ≡ n
unfolding show_fuel digits_value
digits_value-show_fuel zero n h = elim h [ ]
digits_value-show_fuel (suc f) n h = elim (Bool-cases (ltb n 10)) [
  | inl e ↦ rw e (omega arith)
  | inr e ↦
      rw (e, digits_value-append 0 (show_fuel f (n / 10)) ((48 + n % 10) ∷ []))
        (let ih = digits_value-show_fuel f (n / 10) (ground arith) in rw ih (omega arith))
]

-- Printing a number and reading the digits gives the number back.
pub digits_value-show : (n : ℕ) → digits_value 0 (show n) ≡ n
unfolding show
digits_value-show n = digits_value-show_fuel (suc n) n (omega arith)

pub show-injective : (m n : ℕ) → show m ≡ show n → m ≡ n
show-injective m n e = sym (digits_value-show m) ∙ ap (digits_value 0) e ∙ digits_value-show n

abbrev pub IsDigit : ℕ → Type 0
IsDigit d = (48 ≤ d) × (d ≤ 57)

show_fuel-digits : (f n : ℕ) → All IsDigit (show_fuel f n)
unfolding show_fuel
show_fuel-digits zero n = tt
show_fuel-digits (suc f) n = elim (Bool-cases (ltb n 10)) [
  | inl e ↦ rw e ((omega arith, ground arith), tt)
  | inr e ↦ rw e (
      All-append IsDigit (show_fuel f (n / 10)) _ (show_fuel-digits f (n / 10))
        ((omega arith, omega arith), tt))
]

pub show-digits : (n : ℕ) → All IsDigit (show n)
unfolding show
show-digits n = show_fuel-digits (suc n) n

append-ne-nil : (s : Text) (c : ℕ) (t : Text) → s ++ c ∷ t ≢ []
append-ne-nil [] c t e = cc
append-ne-nil (d ∷ s) c t e = cc

pub show-ne-nil : (n : ℕ) → show n ≢ []
unfolding show show_fuel
show-ne-nil n = elim (Bool-cases (ltb n 10)) [
  | inl e ↦ rw e (λ h. cc)
  | inr e ↦ rw e (append-ne-nil (show_fuel n (n / 10)) _ [])
]
