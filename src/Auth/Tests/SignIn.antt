-- ===== src/Auth/Tests/SignIn.antt =====
-- Tests of the sign-in and of the permissions at concrete requests.
use royale_ai_platform.Prelude.{
  ℕ, ◌+◌, ◌*◌, ◌-◌, ◌/◌, ◌≤◌, true, false, Option, none, some, List, [], ◌∷◌, ◌≡◌, refl, ◌↔◌, arith,
}
use royale_ai_platform.Text.{Text, text, text_eq}
use royale_ai_platform.Text.Split.{trim, trim_start, is_space}
use royale_ai_platform.Auth.Domain.{sales_view, ai_access, LoginResponse}
use royale_ai_platform.Auth.Permissions.{NavItemConfig}
use royale_ai_platform.Auth.Attempts.{
  no_attempts, to_user, max_attempts, block_duration_ms, log_attempt, is_blocked,
  find_user_by_login, get_stored_hash,
}
use royale_ai_platform.Auth.Session.{MemoryStore, memory_storage, session}
use royale_ai_platform.Auth.Session.Laws.{memory_storage-IsStorage}
use royale_ai_platform.Auth.Login.{
  Request, AuthState, failure, authenticate, conclude, login, get_current_session,
}
use royale_ai_platform.Auth.Login.Laws.{
  IsKnown, IsAdmitted, login-success_iff, login_refusal, get_current_session-login,
}
use royale_ai_platform.Auth.Login.Limit.{tries, tries-bound, AllRefused, IsOrdered}
use royale_ai_platform.Auth.Login.Interleaving.{IsWrong, begin_all, finish_all, login_overlapping}
use royale_ai_platform.Auth.Tests.Sample.{
  sample_platform, sample_platform-IsPlatform, sample_crypto, sample_password, sample_user,
}
use royale_ai_platform.Auth.Tests.{
  session_ana, full_store, session_ana-IsSaved, verified_ana, unverified_ana,
}

abbrev at_time : ℕ → Option Text → Option Text → Request
at_time now login_id password = record {
  login_id = login_id;
  password = password;
  times = record { asked = now; logged = now; issued = now };
}

abbrev fresh : AuthState MemoryStore
fresh = record { attempts = no_attempts; store = [] }

abbrev answer : Request → LoginResponse × AuthState MemoryStore
answer r = login sample_crypto (sample_user ∷ []) sample_platform memory_storage r fresh

abbrev sign_in : Request
sign_in = at_time 1000 (some (text "ana")) (some sample_password)

abbrev stranger : ℕ → Request
stranger now = at_time now (some (text "bob")) (some (text "x"))

login-success_iff_example :
    ((answer sign_in).0.success ≡ true)
    ↔ IsAdmitted sample_crypto (sample_user ∷ []) sample_platform memory_storage sign_in fresh
login-success_iff_example =
    login-success_iff sample_crypto (sample_user ∷ []) sample_platform memory_storage sign_in fresh

ana-IsKnown :
    IsKnown sample_crypto
      (sample_user ∷ [])
      (trim (text "ana"))
      sample_password
      (to_user sample_user)
unfolding trim trim_start is_space text_eq
ana-IsKnown = record {
  entry = sample_user;
  found = refl;
  stored = λ e. cc;
  verified = verified_ana;
  same = refl;
}

sign_in-IsAdmitted :
    IsAdmitted sample_crypto (sample_user ∷ []) sample_platform memory_storage sign_in fresh
unfolding is_blocked trim trim_start is_space
sign_in-IsAdmitted = record {
  open_lem = refl;
  named = λ e. cc;
  named_short = omega arith;
  keyed = λ e. cc;
  keyed_short = omega arith;
  user = to_user sample_user;
  known = ana-IsKnown;
}

get_current_session-login_example :
    let s' = (answer sign_in).1 in
    (s'.attempts ≡ no_attempts)
    × ((get_current_session sample_platform memory_storage 5000 s').0 ≡ some (session session_ana))
unfolding sign_in-IsAdmitted
get_current_session-login_example =
    get_current_session-login sample_crypto (sample_user ∷ []) sample_platform memory_storage
      sample_platform-IsPlatform memory_storage-IsStorage sign_in fresh sign_in-IsAdmitted
      full_store 5000 session_ana-IsSaved

refused_bob : (answer (stranger 1000)).0.success ≡ false
unfolding login conclude authenticate find_user_by_login is_blocked log_attempt trim trim_start
    is_space text_eq
refused_bob = refl

login_refusal_example :
    ((answer (stranger 1000)).0 ≡ failure) × ((answer (stranger 1000)).1.store ≡ [])
login_refusal_example =
    login_refusal sample_crypto (sample_user ∷ []) sample_platform memory_storage (stranger 1000)
      fresh refused_bob

abbrev six_tries : List Request
six_tries = stranger 10 ∷ stranger 20 ∷ stranger 30 ∷ stranger 40 ∷ stranger 50 ∷ stranger 60 ∷ []

six_tries-AllRefused :
    AllRefused sample_crypto (sample_user ∷ []) sample_platform memory_storage six_tries fresh
unfolding login conclude authenticate find_user_by_login is_blocked log_attempt trim trim_start
    is_space text_eq
six_tries-AllRefused = (refl, (refl, (refl, (refl, (refl, (refl, tt))))))

-- Of six calls within a minute five try a password.
six_tried :
    tries sample_crypto (sample_user ∷ []) sample_platform memory_storage six_tries fresh ≡ 5
unfolding tries login conclude authenticate find_user_by_login is_blocked log_attempt trim
    trim_start is_space text_eq
six_tried = refl

six_tries-IsOrdered : IsOrdered 0 six_tries 100
six_tries-IsOrdered = (
  omega arith,
  omega arith,
  (
    omega arith,
    omega arith,
    (
      omega arith,
      omega arith,
      (
        omega arith,
        omega arith,
        (omega arith, omega arith, (omega arith, omega arith, omega arith)),
      ),
    ),
  ),
)

tries-bound_example :
    tries sample_crypto (sample_user ∷ []) sample_platform memory_storage six_tries fresh
    ≤ max_attempts * ((100 - 0) / block_duration_ms + 1)
tries-bound_example =
    tries-bound sample_crypto (sample_user ∷ []) sample_platform memory_storage 0 100 six_tries
      fresh refl six_tries-IsOrdered six_tries-AllRefused

abbrev wrong_ana : ℕ → Request
wrong_ana now = record {
  login_id = some (text "ana");
  password = some (text "x");
  times = record { asked = now; logged = 900; issued = 900 };
}

wrong_ana-IsWrong :
    (now : ℕ)
    → IsWrong sample_crypto (sample_user ∷ []) sample_platform memory_storage 900 (wrong_ana now)
unfolding trim trim_start is_space text_eq find_user_by_login get_stored_hash authenticate
wrong_ana-IsWrong now = record {
  fit = refl;
  user = to_user sample_user;
  known = refl;
  hash = sample_user.password_hash;
  stored = refl;
  hash_given = λ e. cc;
  wrong = rw (unverified_ana) refl;
  logged_at = refl;
}

abbrev burst : List Request
burst = wrong_ana 10 ∷ wrong_ana 11 ∷ wrong_ana 12 ∷ wrong_ana 13 ∷ wrong_ana 14 ∷ wrong_ana 15 ∷ []

abbrev burst_end : AuthState MemoryStore
burst_end =
    finish_all sample_crypto (sample_user ∷ []) sample_platform memory_storage burst
      (begin_all burst fresh).1

login_overlapping_example :
    ((begin_all burst fresh).0 ≡ 6)
    × (login sample_crypto
          (sample_user ∷ [])
          sample_platform
          memory_storage
          (wrong_ana 2000)
          burst_end
        ≡ (failure, burst_end))
login_overlapping_example =
    login_overlapping sample_crypto (sample_user ∷ []) sample_platform memory_storage 900 burst []
      (wrong_ana 2000)
      (
        wrong_ana-IsWrong 10,
        (
          wrong_ana-IsWrong 11,
          (
            wrong_ana-IsWrong 12,
            (wrong_ana-IsWrong 13, (wrong_ana-IsWrong 14, (wrong_ana-IsWrong 15, tt))),
          ),
        ),
      )
      (omega arith) (omega arith)

abbrev nav : List NavItemConfig
nav =
    record {
      label = text "Vendas";
      href = text "/sales";
      permission = some sales_view;
      disabled = none;
    }
    ∷ record { label = text "IA"; href = text "/ai"; permission = some ai_access; disabled = none }
    ∷ []
