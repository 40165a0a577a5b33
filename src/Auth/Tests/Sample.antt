-- ===== src/Auth/Tests/Sample.antt =====
-- A platform, a table and a salt for the tests, with what the platform is assumed to do.
use royale_ai_platform.Prelude.{
  ℕ, zero, suc, ◌%◌, ◌<◌, ◌+◌, true, Option, none, some, List, [], ◌∷◌, ◌++◌, ◌≡◌, refl, ap, arith,
  length, All,
}
use royale_ai_platform.Text.{Text, text, text_eq, text_eq_refl}
use royale_ai_platform.Auth.Domain.{
  Role, admin, manager, supervisor, finance, support, viewer, Session,
}
use royale_ai_platform.Auth.Attempts.{StoredUser}
use royale_ai_platform.Auth.Password.{Crypto, to_hex, stored_text, derive, hash_password}
use royale_ai_platform.Auth.Password.Roundtrip.{IsPbkdf2}
use royale_ai_platform.Auth.Session.{Payload, session, Platform}
use royale_ai_platform.Auth.Session.Laws.{IsPlatform}

-- A text behind its length.
abbrev write_text : Text → Text → Text
write_text t rest = length t ∷ t ++ rest

abbrev cut : ℕ → Text → Text × Text
cut zero s = ([], s)
cut (suc n) [] = ([], [])
cut (suc n) (c ∷ s) = let (a, b) = cut n s in (c ∷ a, b)

abbrev read_text : Text → Text × Text
read_text [] = ([], [])
read_text (n ∷ s) = cut n s

cut-append : (t rest : Text) → cut (length t) (t ++ rest) ≡ (t, rest)
cut-append [] rest = refl
cut-append (c ∷ t) rest = rw (cut-append t rest)

abbrev write_items : List Text → Text
write_items [] = []
write_items (t ∷ ts) = write_text t (write_items ts)

abbrev read_items : ℕ → Text → List Text
read_items zero s = []
read_items (suc n) s = let (t, rest) = read_text s in t ∷ read_items n rest

read_items-write_items : (ts : List Text) → read_items (length ts) (write_items ts) ≡ ts
read_items-write_items [] = refl
read_items-write_items (t ∷ ts) =
    rw (cut-append t (write_items ts)) (ap (λ us. t ∷ us) (read_items-write_items ts))

abbrev role_number : Role → ℕ
role_number admin = 0
role_number manager = 1
role_number supervisor = 2
role_number finance = 3
role_number support = 4
role_number viewer = 5

abbrev role_of : ℕ → Role
role_of zero = admin
role_of (suc zero) = manager
role_of (suc (suc zero)) = supervisor
role_of (suc (suc (suc zero))) = finance
role_of (suc (suc (suc (suc zero)))) = support
role_of _ = viewer

role_of-role_number : (r : Role) → role_of (role_number r) ≡ r
role_of-role_number admin = refl
role_of-role_number manager = refl
role_of-role_number supervisor = refl
role_of-role_number finance = refl
role_of-role_number support = refl
role_of-role_number viewer = refl

abbrev write_session : Session → Text
write_session s =
    s.expires_at
    ∷ role_number s.role
    ∷ length s.permissions
    ∷ write_text s.user_id (write_text s.login (write_text s.name (write_items s.permissions)))

abbrev read_session : Text → Option Payload
read_session (expires_at ∷ role ∷ n ∷ s) =
    let (user_id, s1) = read_text s in
    let (login, s2) = read_text s1 in
    let (name, s3) = read_text s2 in
    some (
      session (record {
        user_id = user_id;
        login = login;
        name = name;
        role = role_of role;
        permissions = read_items n s3;
        expires_at = expires_at;
      }))
read_session _ = none

read_session-write_session : (s : Session) → read_session (write_session s) ≡ some (session s)
read_session-write_session s = rw (
  cut-append s.user_id (write_text s.login (write_text s.name (write_items s.permissions))),
  cut-append s.login (write_text s.name (write_items s.permissions)),
  cut-append s.name (write_items s.permissions),
  read_items-write_items s.permissions,
  role_of-role_number s.role,
)

abbrev pub sample_platform : Platform
sample_platform = record {
  stringify = write_session;
  parse = read_session;
  encode = λ t. t;
  hmac_sign = λ key message. some (1 ∷ message);
  hmac_verify = λ key sig message. some (text_eq sig (1 ∷ message));
  btoa = λ bytes. bytes;
  atob = λ t. some t;
}

verify_of_sign :
    (message sig : List ℕ)
    → some (1 ∷ message) ≡ some sig
    → some (text_eq sig (1 ∷ message)) ≡ some true
verify_of_sign message sig e =
    let same : (1 ∷ message) ≡ sig = cc in rw (← same, text_eq_refl (1 ∷ message))

pub sample_platform-IsPlatform : IsPlatform sample_platform
sample_platform-IsPlatform = record {
  parse-stringify = λ s. read_session-write_session s;
  parse-empty = refl;
  atob-btoa = λ bytes. refl;
  btoa-ne-nil = λ bytes h. h;
  sign-ne-nil = λ key message sig e n. cc;
  verify-sign = λ key message sig e. verify_of_sign message sig e;
}

abbrev copies : ℕ → ℕ → List ℕ
copies zero b = []
copies (suc n) b = b ∷ copies n b

length-copies : (n b : ℕ) → length (copies n b) ≡ n
length-copies zero b = refl
length-copies (suc n) b = ap suc (length-copies n b)

copies-All : (n b : ℕ) → b < 256 → All (λ c. c < 256) (copies n b)
copies-All zero b h = tt
copies-All (suc n) b h = (h, copies-All n b h)

abbrev sum : List ℕ → ℕ
sum [] = 0
sum (n ∷ ns) = n + sum ns

abbrev sum_bytes : List ℕ → List ℕ
sum_bytes key = copies 64 (sum key % 256)

abbrev pub sample_crypto : Crypto
sample_crypto = record { encode = λ t. t; derive_bits = λ key salt n. some (sum_bytes key) }

sum_bytes-of :
    (key bits : List ℕ)
    → some (sum_bytes key) ≡ some bits
    → (length bits ≡ 64) × All (λ b. b < 256) bits
sum_bytes-of key bits e =
    let same : sum_bytes key ≡ bits = cc in
    rw (← same) (length-copies 64 (sum key % 256), copies-All 64 (sum key % 256) (omega arith))

pub sample_crypto-IsPbkdf2 : IsPbkdf2 sample_crypto
sample_crypto-IsPbkdf2 = record { derived = λ key salt n bits e. sum_bytes-of key bits e }

abbrev pub sample_password : Text
sample_password = text "segredo"

abbrev pub sample_salt : List ℕ
sample_salt = 17 ∷ 250 ∷ []

abbrev pub sample_hash : Text
sample_hash = stored_text (to_hex sample_salt) (sum_bytes sample_password)

pub hash_password_sample :
    hash_password sample_crypto sample_salt sample_password ≡ some sample_hash
unfolding hash_password derive
hash_password_sample = refl

abbrev pub sample_user : StoredUser
sample_user = record {
  id = text "1";
  login = text "ana";
  name = text "Ana";
  role = manager;
  password_hash = sample_hash;
}
