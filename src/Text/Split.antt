-- ===== src/Text/Split.antt =====
-- `String.prototype.split` by one code unit, `trim`, and `parseInt(s, 10)`.
use royale_ai_platform.Prelude.{
  ℕ, ◌≢◌, Bool, false, List, [], ◌∷◌, ◌++◌, ◌≡◌, refl, arith, leb, ◌==◌, ◌&&◌, ◌||◌, if◌then◌else◌,
  All,
}
use royale_ai_platform.Text.{
  Text, IsDigit, digits_value, show, show-digits, digits_value-show, show-ne-nil,
}
use mathlib.Core.List.{reverse}

abbrev cons_head : ℕ → List Text → List Text
cons_head c [] = (c ∷ []) ∷ []
cons_head c (part ∷ parts) = (c ∷ part) ∷ parts

unfoldable pub split : ℕ → Text → List Text
split sep [] = [] ∷ []
split sep (c ∷ s) = let rest = split sep s in if c == sep then [] ∷ rest else cons_head c rest

abbrev pub Avoids : ℕ → Text → Type 0
Avoids sep s = All (λ c. c ≢ sep) s

pub split-end : (sep : ℕ) (s : Text) → Avoids sep s → split sep s ≡ s ∷ []
unfolding split
split-end sep [] h = refl
split-end sep (c ∷ s) h = ground (arith, split-end sep s h.1)

pub split-append :
    (sep : ℕ) (s t : Text) → Avoids sep s → split sep (s ++ sep ∷ t) ≡ s ∷ split sep t
unfolding split
split-append sep [] t h = ground arith
split-append sep (c ∷ s) t h = ground (arith, split-append sep s t h.1)

-- The white space and line ends of the language's `trim`.
unfoldable pub is_space : ℕ → Bool
is_space c =
    (leb 9 c && leb c 13)
    || c == 32
    || c == 160
    || c == 5760
    || (leb 8192 c && leb c 8202)
    || c == 8232
    || c == 8233
    || c == 8239
    || c == 8287
    || c == 12288
    || c == 65279

unfoldable pub trim_start : Text → Text
unfolding is_space
trim_start [] = []
trim_start (c ∷ s) = let rest = trim_start s in if is_space c then rest else c ∷ s

unfoldable pub trim : Text → Text
unfolding trim_start
trim s = reverse (trim_start (reverse (trim_start s)))

-- What `parseInt(s, 10)` gives: no number, or one with its sign. A value past 2 ^ 53 is kept exact,
-- where the source rounds it.
pub data ParsedInt : Type 0 where
  not_a_number : ParsedInt
  non_negative : ℕ → ParsedInt
  negative : ℕ → ParsedInt

unfoldable pub is_digit : ℕ → Bool
is_digit c = leb 48 c && leb c 57

unfoldable pub digit_prefix : Text → Text
unfolding is_digit
digit_prefix [] = []
digit_prefix (c ∷ s) = let rest = digit_prefix s in if is_digit c then c ∷ rest else []

abbrev number_of : (ℕ → ParsedInt) → Text → ParsedInt
number_of sign [] = not_a_number
number_of sign (d ∷ ds) = sign (digits_value 0 (d ∷ ds))

abbrev parse_signed : Text → ParsedInt
unfolding digit_prefix
parse_signed [] = not_a_number
parse_signed (c ∷ s) =
    if c == 45
    then number_of negative (digit_prefix s)
    else (if c == 43
        then number_of non_negative (digit_prefix s)
        else number_of non_negative (digit_prefix (c ∷ s)))

unfoldable pub parse_int : Text → ParsedInt
unfolding trim_start digit_prefix parse_signed digits_value
parse_int s = parse_signed (trim_start s)

digit_prefix_of_digits : (s : Text) → All IsDigit s → digit_prefix s ≡ s
unfolding digit_prefix
digit_prefix_of_digits [] h = refl
digit_prefix_of_digits (c ∷ s) h = ground (arith, digit_prefix_of_digits s h.1)

is_space_of_digit : (c : ℕ) → IsDigit c → is_space c ≡ false
unfolding is_space
is_space_of_digit c h = ground arith

parse_int_of_digits :
    (c : ℕ) (s : Text)
    → All IsDigit (c ∷ s)
    → parse_int (c ∷ s) ≡ non_negative (digits_value 0 (c ∷ s))
unfolding parse_int
parse_int_of_digits c s h =
    ground (arith, is_space_of_digit c h.0, digit_prefix_of_digits (c ∷ s) h)

parse_int_of_value :
    (s : Text) (n : ℕ)
    → All IsDigit s
    → s ≢ []
    → digits_value 0 s ≡ n
    → parse_int s ≡ non_negative n
parse_int_of_value [] n h k e = absurd (k refl)
parse_int_of_value (c ∷ s) n h k e = rw (← e) (parse_int_of_digits c s h)

-- Reading a printed number.
pub parse_int-show : (n : ℕ) → parse_int (show n) ≡ non_negative n
parse_int-show n =
    parse_int_of_value (show n) n (show-digits n) (show-ne-nil n) (digits_value-show n)
