-- ===== src/Auth/Password/Roundtrip.antt =====
-- A password against the hash that `hashPassword` made.
use mathlib.Core.Option
use royale_ai_platform.Prelude.{
  ℕ, ◌/◌, ◌%◌, ◌<◌, true, Option, none, some, List, [], ◌∷◌, ◌++◌, ◌≡◌, refl, sym, ◌∙◌, ap, ◌↔◌,
  ◌⊎◌, ◌≢◌, inl, inr, arith, length, All, All-append, ≡-iff, ltb, Bool-cases, iff_trans,
}
use royale_ai_platform.Text.{Text, text, text_eq, show, show-digits, IsDigit}
use royale_ai_platform.Text.Split.{split, split-end, split-append, Avoids, parse_int-show}
use royale_ai_platform.Auth.Password.{
  Crypto, iterations, hex_digit, to_string16, pad_start2, to_hex, colon, derive, hash_password,
  verify_password, verify_parts, stored_text, compare_bits,
}
use royale_ai_platform.Auth.Password.Equality.{timing_safe_equal_iff}

-- What the platform documents of a derivation of 512 bits: 64 bytes.
pub record IsPbkdf2 (crypto : Crypto) : Type 0 where
  pub derived :
      (key salt : List ℕ) (n : ℕ) (bits : List ℕ)
      → crypto.derive_bits key salt n ≡ some bits
      → (length bits ≡ 64) × All (λ b. b < 256) bits

hex_digit-ne-colon : (d : ℕ) → hex_digit d ≢ colon
unfolding hex_digit
hex_digit-ne-colon d = ground arith

hex_digit-injective : (c d : ℕ) → hex_digit c ≡ hex_digit d → c ≡ d
unfolding hex_digit
hex_digit-injective c d e = ground arith

hex_byte-Avoids : (b : ℕ) → Avoids colon (pad_start2 (to_string16 b))
hex_byte-Avoids b = elim (Bool-cases (ltb b 16)) [
  | inl e ↦ rw e (omega arith, (hex_digit-ne-colon b, tt))
  | inr e ↦ rw e (hex_digit-ne-colon (b / 16), (hex_digit-ne-colon (b % 16), tt))
]

to_hex-Avoids : (bs : List ℕ) → Avoids colon (to_hex bs)
unfolding to_hex
to_hex-Avoids [] = tt
to_hex-Avoids (b ∷ bs) = All-append _ _ (to_hex bs) (hex_byte-Avoids b) (to_hex-Avoids bs)

to_hex-ne-nil : (bs : List ℕ) → bs ≢ [] → to_hex bs ≢ []
unfolding to_hex
to_hex-ne-nil [] h = absurd (h refl)
to_hex-ne-nil (b ∷ bs) h = elim (Bool-cases (ltb b 16)) [
  | inl e ↦ rw e (λ n. cc)
  | inr e ↦ rw e (λ n. cc)
]

-- A byte is two digits.
two_digits :
    (b : ℕ) → b < 256 → pad_start2 (to_string16 b) ≡ hex_digit (b / 16) ∷ hex_digit (b % 16) ∷ []
unfolding hex_digit
two_digits b h = ground arith

to_hex-cons :
    (b : ℕ) (bs : List ℕ)
    → b < 256
    → to_hex (b ∷ bs) ≡ hex_digit (b / 16) ∷ hex_digit (b % 16) ∷ to_hex bs
unfolding to_hex
to_hex-cons b bs h = rw (two_digits b h)

to_hex-injective :
    (xs ys : List ℕ)
    → All (λ b. b < 256) xs
    → All (λ b. b < 256) ys
    → to_hex xs ≡ to_hex ys
    → xs ≡ ys
to_hex-injective [] [] h k e = refl
to_hex-injective [] (y ∷ ys) h k e =
    absurd (to_hex-ne-nil (y ∷ ys) (λ n. cc) (sym e ∙ unfold to_hex in refl))
to_hex-injective (x ∷ xs) [] h k e =
    absurd (to_hex-ne-nil (x ∷ xs) (λ n. cc) (e ∙ unfold to_hex in refl))
to_hex-injective (x ∷ xs) (y ∷ ys) h k e =
    let e' = sym (to_hex-cons x xs h.0) ∙ e ∙ to_hex-cons y ys k.0 in
    let high = hex_digit-injective (x / 16) (y / 16) (cc) in
    let low = hex_digit-injective (x % 16) (y % 16) (cc) in
    let rest = to_hex-injective xs ys h.1 k.1 (cc) in let first : x ≡ y = omega arith in cc

-- The six parts of a stored hash come apart again.
split_six :
    (a b c d e f : Text)
    → Avoids colon a
    → Avoids colon b
    → Avoids colon c
    → Avoids colon d
    → Avoids colon e
    → Avoids colon f
    → split colon (a ++ colon ∷ (b ++ colon ∷ (c ++ colon ∷ (d ++ colon ∷ (e ++ colon ∷ f)))))
      ≡ a ∷ b ∷ c ∷ d ∷ e ∷ f ∷ []
split_six a b c d e f ha hb hc hd he hf = rw (
  split-append colon a _ ha,
  split-append colon b _ hb,
  split-append colon c _ hc,
  split-append colon d _ hd,
  split-append colon e _ he,
  split-end colon f hf,
)

digits-Avoids : (s : Text) → All IsDigit s → Avoids colon s
digits-Avoids [] h = tt
digits-Avoids (c ∷ s) h = (λ e. omega arith, digits-Avoids s h.1)

module _ (crypto : Crypto) where
  verify_parts_lem :
      (password salt_hex original : Text)
      → salt_hex ≢ []
      → original ≢ []
      → verify_parts crypto password (
          text "salt"
          ∷ salt_hex
          ∷ text "iterations"
          ∷ show iterations
          ∷ text "hash"
          ∷ original
          ∷ [])
        ≡ compare_bits crypto (derive crypto password salt_hex iterations) original
  unfolding text_eq
  verify_parts_lem password [] original h k = absurd (h refl)
  verify_parts_lem password (c ∷ salt_hex) [] h k = absurd (k refl)
  verify_parts_lem password (c ∷ salt_hex) (d ∷ original) h k = rw (parse_int-show iterations)

  verify_stored :
      (password salt_hex : Text) (bits : List ℕ)
      → Avoids colon salt_hex
      → salt_hex ≢ []
      → bits ≢ []
      → verify_password crypto password (stored_text salt_hex bits)
        ≡ compare_bits crypto (derive crypto password salt_hex iterations) (to_hex bits)
  unfolding verify_password
  verify_stored password salt_hex bits v h k =
      ap (verify_parts crypto password) (
        split_six (text "salt") salt_hex (text "iterations") (show iterations) (text "hash")
          (to_hex bits) (omega arith) v (omega arith) (digits-Avoids _ (show-digits iterations))
          (omega arith) (to_hex-Avoids bits))
      ∙ verify_parts_lem password salt_hex (to_hex bits) h (to_hex-ne-nil bits k)

  compare_bits_iff :
      (o : Option (List ℕ)) (bits : List ℕ)
      → bits ≢ []
      → All (λ b. b < 256) bits
      → ((xs : List ℕ) → o ≡ some xs → All (λ b. b < 256) xs)
      → (compare_bits crypto o (to_hex bits) ≡ true) ↔ (o ≡ some bits)
  compare_bits_iff none bits h k d = (λ e. cc, λ e. cc)
  compare_bits_iff (some xs) bits h k d =
      iff_trans (timing_safe_equal_iff (to_hex xs) (to_hex bits)) (to, from)
    where
      to : (to_hex xs ≡ to_hex bits) ⊎ (to_hex bits ≡ []) → some xs ≡ some bits
      to (inl e) = ap some (to_hex-injective xs bits (d xs refl) k e)
      to (inr e) = absurd (to_hex-ne-nil bits h e)

      from : some xs ≡ some bits → (to_hex xs ≡ to_hex bits) ⊎ (to_hex bits ≡ [])
      from e = let same : xs ≡ bits = cc in inl (ap to_hex same)

  -- If a hash was made of a password with a salt that is not empty, then exactly those passwords
  -- are verified against it that the platform derives the same bytes from under that salt; the
  -- password itself is one of them.
  pub verify-hash_password :
      (salt_bytes : List ℕ) (password other stored : Text)
      → IsPbkdf2 crypto
      → salt_bytes ≢ []
      → hash_password crypto salt_bytes password ≡ some stored
      → ((verify_password crypto other stored ≡ true) ↔ (
          derive crypto other (to_hex salt_bytes) iterations
          ≡ derive crypto password (to_hex salt_bytes) iterations))
        × (verify_password crypto password stored ≡ true)
  unfolding hash_password derive
  verify-hash_password salt_bytes password other stored laws h e =
      let (bits, d, s) = (Option.map-eq-some_iff _ _).0 e in
      let (sixty_four, bytes) = laws.derived _ _ _ bits d in
      let full : bits ≢ [] = λ n. (let k = ap (length {A = ℕ}) n in omega arith) in
      let checks = λ (p : Text).
        iff_trans
          (≡-iff (
            verify_stored p (to_hex salt_bytes) bits (to_hex-Avoids salt_bytes)
              (to_hex-ne-nil salt_bytes h) full))
          (compare_bits_iff _ bits full bytes (λ xs x. (laws.derived _ _ _ xs x).1)) in
      rw (← s, d) (checks other, (checks password).1 d)
