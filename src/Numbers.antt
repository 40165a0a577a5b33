-- ===== src/Numbers.antt =====
-- The numbers of JavaScript, as far as the features compute with them: the type, the operations and
-- the comparisons are parameters. The laws are those of the numbers other than NaN, whatever the
-- rounding: the order is total, and sums and quotients respect it.
pub mod Falling
pub mod Hundredths
use royale_ai_platform.Prelude.{ℕ, ◌&&◌, Bool, true, false, not, ◌≡◌, if◌then◌else◌, List, [], ◌∷◌}
use royale_ai_platform.Text.{Text}

pub record Numbers (N : Type 0) : Type 0 where
  pub add : N → N → N
  pub sub : N → N → N
  pub mul : N → N → N
  pub div : N → N → N
  pub lt : N → N → Bool
  pub le : N → N → Bool
  pub eq : N → N → Bool
  -- `decimal n k` is the literal of n / 10 ^ k.
  pub decimal : ℕ → ℕ → N
  -- `Math.round` and `Math.floor`
  pub round : N → N
  pub floor : N → N
  -- `String(n)`
  pub show_number : N → Text

module _ {N : Type 0} (num : Numbers N) where
  open num use {lt, decimal, add}

  abbrev pub whole : ℕ → N
  whole n = decimal n 0

  -- `Math.max` and `Math.min` of two numbers
  abbrev pub max : N → N → N
  max a b = if lt a b then b else a

  abbrev pub min : N → N → N
  min a b = if lt b a then b else a

  -- `reduce((s, x) => s + x, start)`
  unfoldable pub sum_from : N → List N → N
  sum_from start [] = start
  sum_from start (x ∷ xs) = sum_from (add start x) xs

  pub record AreOrdered : Type 0 where
    pub lt-le : (a b : N) → lt a b ≡ not (num.le b a)
    pub le-trans : (a b c : N) → num.le a b ≡ true → num.le b c ≡ true → num.le a c ≡ true
    pub le-total : (a b : N) → num.le a b ≡ false → num.le b a ≡ true
    pub eq-le : (a b : N) → num.eq a b ≡ num.le a b && num.le b a
    pub le-refl : (a : N) → num.le a a ≡ true
    -- `0.8` is greater than zero.
    pub positive_fraction : lt (whole 0) (decimal 8 1) ≡ true
    -- A sum with a number that is not negative is not less, and quotients by one positive number are
    -- ordered as the dividends are.
    pub le-add : (a b : N) → num.le (whole 0) b ≡ true → num.le a (add a b) ≡ true
    pub le-div :
        (a b t : N)
        → lt (whole 0) t ≡ true
        → num.le a b ≡ true
        → num.le (num.div a t) (num.div b t) ≡ true
    pub div-zero : (t : N) → lt (whole 0) t ≡ true → num.div (whole 0) t ≡ whole 0
