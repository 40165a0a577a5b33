-- ===== src/Numbers/Hundredths.antt =====
-- Hundredths, rounded down, as an example of numbers; what would be negative is zero.
use native.Mathlib.Nat.{le-div_iff_mul-le, div-mul-le_self, div-le_self}
use royale_ai_platform.Prelude.{
  ℕ, ◌+◌, ◌-◌, ◌*◌, ◌/◌, ◌≤◌, ◌<◌, ◌==◌, ltb, leb, true, ◌≡◌, refl, arith,
}
use Prim.Native.Nat.{◌^◌}
use royale_ai_platform.Text.{show}
use royale_ai_platform.Numbers.{Numbers, AreOrdered}

abbrev pub hundredths : Numbers ℕ
hundredths = record {
  add = λ a b. a + b;
  sub = λ a b. a - b;
  mul = λ a b. a * b / 100;
  div = λ a b. a * 100 / b;
  lt = ltb;
  le = leb;
  eq = λ a b. a == b;
  decimal = λ n k. n * 100 / 10 ^ k;
  round = λ n. (n + 50) / 100 * 100;
  floor = λ n. n / 100 * 100;
  show_number = λ n. show (n / 100);
}

zero_div : (t : ℕ) → 0 / t ≡ 0
zero_div t = let le_zero = div-le_self 0 t in omega arith

leb_of : {a b : ℕ} → a ≤ b → leb a b ≡ true
leb_of h = ground arith

div_mono : (a b t : ℕ) → 0 < t → a ≤ b → a * 100 / t ≤ b * 100 / t
div_mono a b t h up = let low = div-mul-le_self (a * 100) t in (le-div_iff_mul-le h).1 (omega arith)

pub hundredths-AreOrdered : AreOrdered hundredths
hundredths-AreOrdered = record {
  lt-le = λ a b. ground arith;
  le-trans = λ a b c h k. ground arith;
  le-total = λ a b h. ground arith;
  eq-le = λ a b. ground arith;
  le-refl = λ a. ground arith;
  positive_fraction = refl;
  le-add = λ a b h. ground arith;
  le-div = λ a b t h up. leb_of (div_mono a b t (ground arith) (ground arith));
  div-zero = λ t h. zero_div t;
}
