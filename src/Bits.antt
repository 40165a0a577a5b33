-- ===== src/Bits.antt =====
-- When `|` and `^` of two numbers are zero, by recursion on the binary digits that they stand for.
use Prim.Native.Nat.{
  ℕ, zero, suc, ◌/◌, ◌%◌, ◌≤◌, max, differ, digits, bit_or, bit_xor, bit_or-bitwise,
  bit_xor-bitwise,
}
use mathlib.Core.Path.{◌≡◌, refl, sym, ap}
use native.Mathlib.Omega.{arith}

or_digits-eq-zero : (n a b : ℕ) → a ≤ n → digits (λ y. y) max n a b ≡ 0 → (a ≡ 0) × (b ≡ 0)
or_digits-eq-zero zero a b h e = omega arith
or_digits-eq-zero (suc n) zero b h e = omega arith
or_digits-eq-zero (suc n) (suc a) b h e =
    omega (arith, or_digits-eq-zero n (suc a / 2) (b / 2) (omega arith) (omega arith))

pub bit_or-eq-zero : (a b : ℕ) → bit_or a b ≡ 0 → (a ≡ 0) × (b ≡ 0)
bit_or-eq-zero a b e = or_digits-eq-zero a a b (omega arith) (rw bit_or-bitwise at e)

differ-eq-zero : (x y : ℕ) → differ x y ≡ 0 → x ≡ y
differ-eq-zero zero y e = sym e
differ-eq-zero (suc x) zero e = e
differ-eq-zero (suc x) (suc y) e = ap suc (differ-eq-zero x y e)

differ_self : (x : ℕ) → differ x x ≡ 0
differ_self zero = refl
differ_self (suc x) = differ_self x

xor_digits-eq-zero : (n a b : ℕ) → a ≤ n → digits (λ y. y) differ n a b ≡ 0 → a ≡ b
xor_digits-eq-zero zero a b h e = omega arith
xor_digits-eq-zero (suc n) zero b h e = omega arith
xor_digits-eq-zero (suc n) (suc a) b h e =
    let low : suc a % 2 ≡ b % 2 = differ-eq-zero (suc a % 2) (b % 2) (omega arith) in
    omega (arith, xor_digits-eq-zero n (suc a / 2) (b / 2) (omega arith) (omega arith))

pub bit_xor-eq-zero : (a b : ℕ) → bit_xor a b ≡ 0 → a ≡ b
bit_xor-eq-zero a b e = xor_digits-eq-zero a a b (omega arith) (rw bit_xor-bitwise at e)

xor_digits_self : (n a : ℕ) → a ≤ n → digits (λ y. y) differ n a a ≡ 0
xor_digits_self zero a h = omega arith
xor_digits_self (suc n) zero h = refl
xor_digits_self (suc n) (suc a) h =
    omega (arith, xor_digits_self n (suc a / 2) (omega arith), differ_self (suc a % 2))

pub bit_xor_self : (a : ℕ) → bit_xor a a ≡ 0
bit_xor_self a = rw bit_xor-bitwise (xor_digits_self a a (omega arith))
