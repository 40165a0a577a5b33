-- ===== src/Auth/Password.antt =====
-- Hashed passwords: frontend/src/auth/infrastructure/password.ts. The platform's text encoder and
-- PBKDF2 are parameters; a derivation that throws is `none`. Texts are lists of code units, and
-- the bytes of a buffer are numbers.
pub mod Equality
pub mod Roundtrip
pub mod Soundness
use Prim.Native.Nat.{bit_or, bit_xor}
use mathlib.Core.Option
use royale_ai_platform.Prelude.{
  ℕ, zero, suc, ◌+◌, ◌/◌, ◌%◌, Bool, true, false, Option, none, some, List, [], ◌∷◌, ◌++◌, ltb, leb,
  ◌==◌, ◌||◌, not, length, is_empty, if◌then◌else◌,
}
use royale_ai_platform.Text.{Text, text, text_eq, show}
use royale_ai_platform.Text.Split.{
  split, ParsedInt, not_a_number, non_negative, negative, parse_int,
}

abbrev pub iterations : ℕ
iterations = 100000

-- `new TextEncoder().encode`, and `importKey` with `deriveBits` for SHA-256 and 512 bits: the key,
-- the salt and the iterations give the bytes.
pub record Crypto : Type 0 where
  pub encode : Text → List ℕ
  pub derive_bits : List ℕ → List ℕ → ℕ → Option (List ℕ)

-- One digit of `toString(16)`.
unfoldable pub hex_digit : ℕ → ℕ
hex_digit d = if ltb d 10 then 48 + d else 87 + d

-- `b.toString(16)` of a byte
abbrev to_string16 : ℕ → Text
to_string16 b = if ltb b 16 then hex_digit b ∷ [] else hex_digit (b / 16) ∷ hex_digit (b % 16) ∷ []

-- `padStart(2, "0")`
abbrev pad_start2 : Text → Text
pad_start2 [] = 48 ∷ 48 ∷ []
pad_start2 (c ∷ []) = 48 ∷ c ∷ []
pad_start2 (c ∷ d ∷ s) = c ∷ d ∷ s

unfoldable pub to_hex : List ℕ → Text
to_hex [] = []
to_hex (b ∷ bs) = pad_start2 (to_string16 b) ++ to_hex bs

-- The loop of `timingSafeEqual` over two texts of one length; a missing `charCodeAt` is `NaN`, which
-- `^` takes for 0.
unfoldable pub xor_loop : ℕ → Text → Text → ℕ
xor_loop result [] t = result
xor_loop result (a ∷ s) [] = xor_loop (bit_or result (bit_xor a 0)) s []
xor_loop result (a ∷ s) (b ∷ t) = xor_loop (bit_or result (bit_xor a b)) s t

-- The loop over `b` where the lengths differ.
unfoldable pub mismatch_loop : ℕ → Text → ℕ
mismatch_loop result [] = result
mismatch_loop result (b ∷ t) = mismatch_loop (bit_or result 255) t

unfoldable pub timing_safe_equal : Text → Text → Bool
unfolding xor_loop mismatch_loop
timing_safe_equal a b = if length a == length b then xor_loop 0 a b == 0 else mismatch_loop 0 b == 0

-- `iterations` after the tests for `NaN`, below 1 and above a million.
abbrev usable_iterations : ParsedInt → Option ℕ
usable_iterations not_a_number = none
usable_iterations (negative n) = none
usable_iterations (non_negative n) = if ltb n 1 || ltb 1000000 n then none else some n

-- The colon that joins the parts of a stored hash.
abbrev pub colon : ℕ
colon = 58

-- The stored form: `salt:…:iterations:…:hash:…`.
abbrev pub stored_text : Text → List ℕ → Text
stored_text salt_hex bits =
    text "salt"
    ++ colon
      ∷ (salt_hex
          ++ colon
            ∷ (text "iterations"
                ++ colon ∷ (show iterations ++ colon ∷ (text "hash" ++ colon ∷ to_hex bits))))

module _ (crypto : Crypto) where
  open crypto use {encode, derive_bits}

  -- `deriveBits` of a password under a salt in hexadecimal.
  unfoldable pub derive : Text → Text → ℕ → Option (List ℕ)
  derive password salt_hex n = derive_bits (encode password) (encode salt_hex) n

  -- `hashPassword`, with the random salt as an argument; `none` where it throws.
  unfoldable pub hash_password : List ℕ → Text → Option Text
  hash_password salt_bytes password =
      let salt_hex = to_hex salt_bytes in
      Option.map (stored_text salt_hex) (derive password salt_hex iterations)

  -- The `try` of `verifyPassword`.
  abbrev compare_bits : Option (List ℕ) → Text → Bool
  compare_bits none original = false
  compare_bits (some bits) original = timing_safe_equal (to_hex bits) original

  abbrev verify_usable : Text → Text → Option ℕ → Text → Bool
  verify_usable password salt_hex none original = false
  verify_usable password salt_hex (some n) original =
      compare_bits (derive password salt_hex n) original

  -- The six parts of a stored hash, and the tests on them.
  abbrev verify_parts : Text → List Text → Bool
  verify_parts password (p0 ∷ p1 ∷ p2 ∷ p3 ∷ p4 ∷ p5 ∷ []) =
      if not (text_eq p0 (text "salt"))
        || not (text_eq p2 (text "iterations"))
        || not (text_eq p4 (text "hash"))
      then false
      else (if is_empty p1 || is_empty p5
          then false
          else verify_usable password p1 (usable_iterations (parse_int p3)) p5)
  verify_parts password _ = false

  unfoldable pub verify_password : Text → Text → Bool
  verify_password password stored = verify_parts password (split colon stored)
