-- ===== src/Auth/Login.antt =====
-- Signing in and out: frontend/src/auth/application/auth-service.ts. What a call reads of the clock,
-- at `isBlocked`, at `logAttempt` and for the expiry, is an argument. `delay` only waits, so it
-- stands for the passing of time between the readings, and `delayEnabled` changes nothing else.
pub mod Laws
pub mod Limit
pub mod Interleaving
use mathlib.Core.Option
use royale_ai_platform.Prelude.{
  ℕ, ◌+◌, ◌*◌, Bool, true, false, Option, none, some, List, [], ◌∷◌, ltb, length, is_empty, ◌||◌,
  if◌then◌else◌,
}
use royale_ai_platform.Text.{Text, text}
use royale_ai_platform.Text.Split.{trim}
use royale_ai_platform.Auth.Domain.{User, Session, LoginResponse, get_permissions_for_role}
use royale_ai_platform.Auth.Attempts.{
  Attempts, StoredUser, log_attempt, is_blocked, find_user_by_login, get_stored_hash,
}
use royale_ai_platform.Auth.Password.{Crypto, verify_password}
use royale_ai_platform.Auth.Session.{
  Storage, Platform, Payload, save_session, load_session, clear_session,
}

abbrev pub session_duration_ms : ℕ
session_duration_ms = 8 * 60 * 60 * 1000

pub record Times : Type 0 where
  pub asked : ℕ
  pub logged : ℕ
  pub issued : ℕ

-- What a call of `login` is given; `none` is a missing argument.
pub record Request : Type 0 where
  pub login_id : Option Text
  pub password : Option Text
  pub times : Times

-- The module state of users.ts and the stores of session.ts.
pub record AuthState (W : Type 0) : Type 0 where
  pub attempts : Attempts
  pub store : W

abbrev pub failure : LoginResponse
failure = record { success = false; error = some (text "Usuário ou senha inválidos.") }

abbrev pub success : LoginResponse
success = record { success = true; error = none }

abbrev pub trimmed_login : Request → Text
trimmed_login r = trim (Option.get_or r.login_id [])

abbrev pub trimmed_password : Request → Text
trimmed_password r = Option.get_or r.password []

-- The two tests before a user is looked up: an empty text, and a text that is too long.
abbrev pub is_unfit : Text → Text → Bool
is_unfit l p = is_empty l || is_empty p || ltb 100 (length l) || ltb 128 (length p)

abbrev pub session_of : User → ℕ → Session
session_of u now = record {
  user_id = u.id;
  login = u.login;
  name = u.name;
  role = u.role;
  permissions = get_permissions_for_role u.role;
  expires_at = now + session_duration_ms;
}

module _ (crypto : Crypto) (users : List StoredUser) where
  abbrev check_hash : User → Text → Option Text → Option User
  check_hash u password none = none
  check_hash u password (some hash) =
      if is_empty hash
      then none
      else (if verify_password crypto password hash then some u else none)

  abbrev check_user : Option User → Text → Text → Option User
  check_user none login_id password = none
  check_user (some u) login_id password = check_hash u password (get_stored_hash users login_id)

  -- The user, where `valid` comes out true.
  unfoldable pub authenticate : Text → Text → Option User
  authenticate login_id password = check_user (find_user_by_login users login_id) login_id password

  module _ (platform : Platform) {W : Type 0} (store : Storage W) where
    -- From `logAttempt` on.
    unfoldable pub conclude : Option User → Times → AuthState W → LoginResponse × AuthState W
    conclude none t s = (failure, record s { attempts = log_attempt false t.logged s.attempts })
    conclude (some u) t s = (
      success,
      record {
        attempts = log_attempt true t.logged s.attempts;
        store = save_session platform store (session_of u t.issued) s.store;
      },
    )

    unfoldable pub login : Request → AuthState W → LoginResponse × AuthState W
    login r s =
        let (blocked, attempts') = is_blocked r.times.asked s.attempts in
        let s' = record s { attempts = attempts' } in
        if blocked
        then (failure, s')
        else (if is_unfit (trimmed_login r) (trimmed_password r)
            then (failure, s')
            else conclude (authenticate (trimmed_login r) (trimmed_password r)) r.times s')

module _ (platform : Platform) {W : Type 0} (store : Storage W) where
  unfoldable pub logout : AuthState W → AuthState W
  logout s = record s { store = clear_session platform store s.store }

  unfoldable pub get_current_session : ℕ → AuthState W → Option Payload × AuthState W
  get_current_session now s =
      let (found, w) = load_session platform store now s.store in (found, record s { store = w })
