-- ===== src/Auth/Tests.antt =====
-- Tests of the sign-in: the theorems at concrete requests, stores and passwords.
pub mod Sample
pub mod SignIn
use royale_ai_platform.Prelude.{
  ℕ, ◌+◌, ◌*◌, ◌-◌, ◌/◌, ◌≤◌, Bool, true, false, Option, none, some, List, [], ◌∷◌, ◌≡◌, refl, ◌↔◌,
  ◌⊎◌, inl, inr, arith, length, find, if◌then◌else◌, Bool-cases, ap,
}
use royale_ai_platform.Text.{Text, text, text_eq, show}
use royale_ai_platform.Text.Split.{split, trim, trim_start, is_space}
use royale_ai_platform.Auth.Domain.{
  Role, admin, manager, viewer, supervisor, Permission, sales_view, users_manage, settings_manage,
  ai_access, Session, AuthUser, LoginResponse, get_permissions_for_role,
}
use royale_ai_platform.Auth.Permissions.{has_permission, NavItemConfig, filter_nav_by_permission}
use royale_ai_platform.Auth.Permissions.Roles.{
  Below, same, viewer_supervisor, supervisor_manager, has_permission_mono, admin_only,
  filter_nav_by_permission_mono,
}
use royale_ai_platform.Auth.Attempts.{
  Attempts, StoredUser, no_attempts, to_user, max_attempts, block_duration_ms, log_attempt,
  is_blocked, find_user_by_login,
}
use royale_ai_platform.Auth.Password.{
  colon, iterations, to_hex, timing_safe_equal, xor_loop, mismatch_loop, derive, verify_password,
}
use royale_ai_platform.Auth.Password.Equality.{timing_safe_equal_iff}
use royale_ai_platform.Auth.Password.Roundtrip.{verify-hash_password}
use royale_ai_platform.Auth.Password.Soundness.{IsVerified, verify_password_sound}
use royale_ai_platform.Auth.Session.{
  Storage, MemoryStore, memory_storage, map_get, map_set, map_delete, Stores, get_store, Payload,
  session, Platform, session_key, integrity_key, sign, save_session, clear_session, load_session,
}
use royale_ai_platform.Auth.Session.Laws.{IsStorage, memory_storage-IsStorage}
use royale_ai_platform.Auth.Session.Loading.{IsSaved, load-clear_session, load-save_session}
use royale_ai_platform.Auth.Session.Rejecting.{
  IsAccepted, IsMissing, load_session_sound, load_session-none,
}
use royale_ai_platform.Auth.Login.{
  Times, Request, AuthState, failure, session_of, session_duration_ms, authenticate, conclude,
  login, get_current_session,
}
use royale_ai_platform.Auth.Login.Laws.{
  IsKnown, IsAdmitted, login-success_iff, login_refusal, get_current_session-login,
}
use royale_ai_platform.Auth.Login.Limit.{tries, tries-bound, AllRefused, IsOrdered}
use royale_ai_platform.Auth.Tests.Sample.{
  sample_platform, sample_platform-IsPlatform, sample_crypto, sample_crypto-IsPbkdf2,
  sample_password, sample_salt, sample_hash, hash_password_sample, sample_user,
}

abbrev pub session_ana : Session
session_ana = session_of (to_user sample_user) 1000

abbrev signature_ana : Text
signature_ana = 1 ∷ sample_platform.stringify session_ana

abbrev half_store : MemoryStore
half_store = map_set session_key (sample_platform.stringify session_ana) []

abbrev pub full_store : MemoryStore
full_store = map_set integrity_key signature_ana half_store

pub session_ana-IsSaved : IsSaved sample_platform memory_storage session_ana [] full_store
unfolding sign
session_ana-IsSaved = record {
  signature = signature_ana;
  signed = refl;
  half = half_store;
  first = refl;
  second = refl;
}

load-save_session_example :
    (save_session sample_platform memory_storage session_ana [] ≡ full_store)
    × (load_session sample_platform memory_storage 2000 full_store
        ≡ (some (session session_ana), full_store))
load-save_session_example =
    load-save_session memory_storage-IsStorage sample_platform sample_platform-IsPlatform 2000
      session_ana [] full_store session_ana-IsSaved

loaded_ana :
    load_session sample_platform memory_storage 2000 full_store
    ≡ (some (session session_ana), full_store)
loaded_ana =
    (load-save_session memory_storage-IsStorage sample_platform sample_platform-IsPlatform 2000
      session_ana [] full_store session_ana-IsSaved).1

load_session_sound_example :
    IsAccepted sample_platform 2000
      (map_get session_key full_store)
      (map_get integrity_key full_store)
      (session session_ana)
    × (full_store ≡ full_store)
load_session_sound_example =
    load_session_sound sample_platform memory_storage 2000 full_store full_store
      (session session_ana) loaded_ana

-- After the expiry the stored session is refused.
late_ana :
    load_session sample_platform memory_storage 99000000 full_store
    ≡ (none, clear_session sample_platform memory_storage full_store)
late_ana =
    (load-save_session memory_storage-IsStorage sample_platform sample_platform-IsPlatform 99000000
      session_ana [] full_store session_ana-IsSaved).1

load_session-none_example :
    (IsMissing sample_platform (map_get session_key full_store) (map_get integrity_key full_store)
      × (clear_session sample_platform memory_storage full_store ≡ full_store))
    ⊎ (clear_session sample_platform memory_storage full_store
        ≡ clear_session sample_platform memory_storage full_store)
load_session-none_example =
    load_session-none sample_platform memory_storage 99000000 full_store
      (clear_session sample_platform memory_storage full_store) late_ana

-- What was written while the session storage could be used is not read while it cannot, and is there
-- again afterwards.
hidden :
    ((get_store memory_storage false).get_item
        (text "k")
        (record { session_storage = (text "k", text "v") ∷ []; memory = [] })
      ≡ none)
    × ((get_store memory_storage true).get_item
          (text "k")
          (record { session_storage = (text "k", text "v") ∷ []; memory = [] })
        ≡ some (text "v"))
unfolding map_get text_eq
hidden = (refl, refl)

timing_safe_equal_iff_example :
    (timing_safe_equal (text "ab") (text "ac") ≡ true)
    ↔ ((text "ab" ≡ text "ac") ⊎ (text "ac" ≡ []))
timing_safe_equal_iff_example = timing_safe_equal_iff (text "ab") (text "ac")

-- Against an empty text the comparison gives true.
timing_safe_equal_empty : timing_safe_equal (text "abc") [] ≡ true
unfolding timing_safe_equal xor_loop mismatch_loop
timing_safe_equal_empty = refl

verify-hash_password_example :
    ((verify_password sample_crypto (text "errado") sample_hash ≡ true) ↔ (
      derive sample_crypto (text "errado") (to_hex sample_salt) iterations
      ≡ derive sample_crypto sample_password (to_hex sample_salt) iterations))
    × (verify_password sample_crypto sample_password sample_hash ≡ true)
verify-hash_password_example =
    verify-hash_password sample_crypto sample_salt sample_password (text "errado") sample_hash
      sample_crypto-IsPbkdf2 (λ e. cc) hash_password_sample

pub verified_ana : verify_password sample_crypto sample_password sample_hash ≡ true
verified_ana =
    (verify-hash_password sample_crypto sample_salt sample_password sample_password sample_hash
      sample_crypto-IsPbkdf2 (λ e. cc) hash_password_sample).1

abbrev first_bit : Option (List ℕ) → ℕ
first_bit (some (b ∷ _)) = b
first_bit _ = 0

pub unverified_ana : verify_password sample_crypto (text "x") sample_hash ≡ false
unfolding derive
unverified_ana =
    let derived =
      (verify-hash_password sample_crypto sample_salt sample_password (text "x") sample_hash
        sample_crypto-IsPbkdf2 (λ e. cc) hash_password_sample).0 in
    elim (Bool-cases (verify_password sample_crypto (text "x") sample_hash)) [
      | inl verified ↦
          let alike : 120 ≡ 233 = ap first_bit (derived.0 verified) in absurd (omega (arith, alike))
      | inr refused ↦ refused
    ]

verify_password_sound_example : IsVerified sample_crypto sample_password (split colon sample_hash)
verify_password_sound_example =
    verify_password_sound sample_crypto sample_password sample_hash verified_ana
