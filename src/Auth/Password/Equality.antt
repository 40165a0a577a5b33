-- ===== src/Auth/Password/Equality.antt =====
-- What `timingSafeEqual` decides.
use Prim.Native.Nat.{bit_or, bit_xor}
use royale_ai_platform.Prelude.{
  ℕ, true, [], ◌∷◌, ◌≡◌, refl, sym, ◌↔◌, ◌⊎◌, ◌≢◌, inl, inr, arith, length, Bool-cases, ◌==◌,
  ==_iff, iff_trans, ap, iff_trans,
}
use royale_ai_platform.Bits.{bit_or-eq-zero, bit_xor-eq-zero, bit_xor_self}
use royale_ai_platform.Text.{Text}
use royale_ai_platform.Auth.Password.{xor_loop, mismatch_loop, timing_safe_equal}

xor_loop-eq-zero :
    (r : ℕ) (s t : Text) → length s ≡ length t → xor_loop r s t ≡ 0 → (r ≡ 0) × (s ≡ t)
unfolding xor_loop
xor_loop-eq-zero r [] [] l e = (e, refl)
xor_loop-eq-zero r [] (b ∷ t) l e = cc
xor_loop-eq-zero r (a ∷ s) [] l e = cc
xor_loop-eq-zero r (a ∷ s) (b ∷ t) l e =
    let (z, same) = xor_loop-eq-zero (bit_or r (bit_xor a b)) s t (omega arith) e in
    let (r0, x0) = bit_or-eq-zero r (bit_xor a b) z in (r0, cc (bit_xor-eq-zero a b x0))

xor_loop_self : (s : Text) → xor_loop 0 s s ≡ 0
unfolding xor_loop
xor_loop_self [] = refl
xor_loop_self (a ∷ s) = rw bit_xor_self (xor_loop_self s)

mismatch_loop-ne-zero : (r : ℕ) (t : Text) → r ≢ 0 → mismatch_loop r t ≢ 0
unfolding mismatch_loop
mismatch_loop-ne-zero r [] h = h
mismatch_loop-ne-zero r (b ∷ t) h =
    mismatch_loop-ne-zero (bit_or r 255) t (λ e. h (bit_or-eq-zero r 255 e).0)

mismatch_loop-eq-zero : (t : Text) → mismatch_loop 0 t ≡ 0 → t ≡ []
unfolding mismatch_loop
mismatch_loop-eq-zero [] e = refl
mismatch_loop-eq-zero (b ∷ t) e =
    absurd (mismatch_loop-ne-zero (bit_or 0 255) t (λ z. omega (arith, bit_or-eq-zero 0 255 z)) e)

same_text : (a b : Text) → length a ≡ length b → (a ≡ b) ⊎ (b ≡ []) → a ≡ b
same_text a b l (inl e) = e
same_text [] b l (inr e) = sym e
same_text (c ∷ a) b l (inr e) = absurd (let k = ap (length {A = ℕ}) e in omega arith)

module _ (a b : Text) where
  xor_loop_iff : length a ≡ length b → (xor_loop 0 a b ≡ 0) ↔ ((a ≡ b) ⊎ (b ≡ []))
  xor_loop_iff l =
      (λ e. inl (xor_loop-eq-zero 0 a b l e).1, λ h. rw (same_text a b l h) (xor_loop_self b))

  mismatch_loop_iff : length a ≢ length b → (mismatch_loop 0 b ≡ 0) ↔ ((a ≡ b) ⊎ (b ≡ []))
  unfolding mismatch_loop
  mismatch_loop_iff l = (λ e. inr (mismatch_loop-eq-zero b e), from)
    where
      from : (a ≡ b) ⊎ (b ≡ []) → mismatch_loop 0 b ≡ 0
      from (inl e) = absurd (l (ap length e))
      from (inr e) = rw e

-- The comparison accepts exactly the pairs of equal texts, and any text against an empty second one.
pub timing_safe_equal_iff : (a b : Text) → (timing_safe_equal a b ≡ true) ↔ ((a ≡ b) ⊎ (b ≡ []))
unfolding timing_safe_equal
timing_safe_equal_iff a b = elim (Bool-cases (length a == length b)) [
  | inl same ↦ rw same (iff_trans (==_iff (xor_loop 0 a b) 0) (xor_loop_iff a b (ground arith)))
  | inr other ↦
      rw other (iff_trans (==_iff (mismatch_loop 0 b) 0) (mismatch_loop_iff a b (ground arith)))
]
