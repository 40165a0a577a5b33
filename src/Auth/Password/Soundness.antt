-- ===== src/Auth/Password/Soundness.antt =====
-- What `verifyPassword` requires of a stored hash.
use royale_ai_platform.Prelude.{
  ℕ, ◌≤◌, true, Option, none, some, List, [], ◌∷◌, ◌≡◌, refl, ◌≢◌, inl, inr, arith,
}
use royale_ai_platform.Text.{Text, text, text_eq_iff}
use royale_ai_platform.Text.Split.{
  split, parse_int, ParsedInt, not_a_number, non_negative, negative,
}
use royale_ai_platform.Auth.Password.{
  Crypto, colon, derive, to_hex, verify_password, verify_parts, verify_usable, usable_iterations,
  compare_bits,
}
use royale_ai_platform.Auth.Password.Equality.{timing_safe_equal_iff}

-- What a stored hash must hold for a password to be verified against it.
pub record IsVerified (crypto : Crypto) (password : Text) (parts : List Text) : Type 0 where
  pub salt_hex : Text
  pub count_text : Text
  pub count : ℕ
  pub hash : Text
  pub bits : List ℕ
  pub six :
      parts ≡ text "salt" ∷ salt_hex ∷ text "iterations" ∷ count_text ∷ text "hash" ∷ hash ∷ []
  pub reads : parse_int count_text ≡ non_negative count
  pub in_range : (1 ≤ count) × (count ≤ 1000000)
  pub salted : salt_hex ≢ []
  pub hashed : hash ≢ []
  pub derived : derive crypto password salt_hex count ≡ some bits
  pub same : to_hex bits ≡ hash

module _ (crypto : Crypto) where
  verify_usable_sound :
      (password salt_hex hash : Text) (p : ParsedInt)
      → verify_usable crypto password salt_hex (usable_iterations p) hash ≡ true
      → (n : ℕ) × (p ≡ non_negative n)
        × (1 ≤ n)
        × (n ≤ 1000000)
        × (compare_bits crypto (derive crypto password salt_hex n) hash ≡ true)
  verify_usable_sound password salt_hex hash not_a_number h = cc
  verify_usable_sound password salt_hex hash (negative n) h = cc
  verify_usable_sound password salt_hex hash (non_negative n) h =
      (n, refl, ground arith, ground arith, ground arith)

  compare_bits_sound :
      (o : Option (List ℕ)) (hash : Text)
      → hash ≢ []
      → compare_bits crypto o hash ≡ true
      → (bits : List ℕ) × (o ≡ some bits) × (to_hex bits ≡ hash)
  compare_bits_sound none hash k h = cc
  compare_bits_sound (some bits) hash k h = (
    bits,
    refl,
    elim ((timing_safe_equal_iff (to_hex bits) hash).0 h) [ inl e ↦ e | inr e ↦ absurd (k e) ],
  )

  verify_parts_sound :
      (password : Text) (parts : List Text)
      → verify_parts crypto password parts ≡ true
      → IsVerified crypto password parts
  verify_parts_sound password (p0 ∷ p1 ∷ p2 ∷ p3 ∷ p4 ∷ p5 ∷ []) h =
      let salted : p1 ≢ [] = λ e. ground arith in
      let hashed : p5 ≢ [] = λ e. ground arith in
      let e0 = (text_eq_iff p0 (text "salt")).0 (ground arith) in
      let e2 = (text_eq_iff p2 (text "iterations")).0 (ground arith) in
      let e4 = (text_eq_iff p4 (text "hash")).0 (ground arith) in
      let (n, reads, low, high, accepted) =
        verify_usable_sound password p1 p5 (parse_int p3) (ground arith) in
      let (bits, derived, same) =
        compare_bits_sound (derive crypto password p1 n) p5 hashed accepted in
      record {
        salt_hex = p1;
        count_text = p3;
        count = n;
        hash = p5;
        bits = bits;
        six = cc;
        reads = reads;
        in_range = (low, high);
        salted = salted;
        hashed = hashed;
        derived = derived;
        same = same;
      }
  verify_parts_sound password _ h = cc

  -- A password is verified only against a hash of the six parts, with a salt and a hash that are not
  -- empty and between one and a million iterations, whose hash is the hexadecimal form of the
  -- bytes that the platform derives from the password.
  pub verify_password_sound :
      (password stored : Text)
      → verify_password crypto password stored ≡ true
      → IsVerified crypto password (split colon stored)
  unfolding verify_password
  verify_password_sound password stored h = verify_parts_sound password (split colon stored) h
