-- ===== src/Auth/Attempts.antt =====
-- The count of failed sign-ins: frontend/src/auth/infrastructure/users.ts. The module variable
-- `attempts` is passed along; `Date.now()` is an argument, in milliseconds. A difference of two
-- clock readings is compared as a sum, so that a clock set back gives what the source's negative
-- number gives. `++` stays far below 2 ^ 53, since the block stops it at five.
pub mod Rate
use royale_ai_platform.Prelude.{
  ℕ, ◌+◌, ◌*◌, Bool, true, false, Option, none, some, List, [], ◌∷◌, ltb, leb, ◌==◌, find,
  if◌then◌else◌,
}
use royale_ai_platform.Text.{Text, text_eq}
use royale_ai_platform.Auth.Domain.{Role, User}

abbrev pub max_attempts : ℕ
max_attempts = 5

abbrev pub block_duration_ms : ℕ
block_duration_ms = 60 * 1000

abbrev pub reset_interval_ms : ℕ
reset_interval_ms = 15 * 60 * 1000

pub record Attempts : Type 0 where
  pub count : ℕ
  pub first_attempt : ℕ
  pub blocked_until : ℕ

abbrev pub no_attempts : Attempts
no_attempts = record { count = 0; first_attempt = 0; blocked_until = 0 }

-- `now - attempts.firstAttempt > RESET_INTERVAL_MS`
abbrev expire : ℕ → Attempts → Attempts
expire now a =
    if ltb (a.first_attempt + reset_interval_ms) now
    then record { count = 0; first_attempt = now; blocked_until = 0 }
    else a

-- `if (attempts.count === 0) attempts.firstAttempt = now`
abbrev stamp : ℕ → Attempts → Attempts
stamp now a = if a.count == 0 then record a { first_attempt = now } else a

-- `attempts.count++`, and the block at the limit
abbrev bump : ℕ → Attempts → Attempts
bump now a =
    let a' = record a { count = a.count + 1 } in
    if leb max_attempts (a.count + 1)
    then record a' { blocked_until = now + block_duration_ms }
    else a'

unfoldable pub log_attempt : Bool → ℕ → Attempts → Attempts
log_attempt true now a = no_attempts
log_attempt false now a = bump now (stamp now (expire now a))

unfoldable pub is_blocked : ℕ → Attempts → Bool × Attempts
is_blocked now a =
    if a.blocked_until == 0
    then (false, a)
    else (if ltb now a.blocked_until then (true, a) else (false, no_attempts))

-- `StoredUser`
pub record StoredUser : Type 0 where
  pub id : Text
  pub login : Text
  pub name : Text
  pub role : Role
  pub password_hash : Text

abbrev pub to_user : StoredUser → User
to_user u = record { id = u.id; login = u.login; name = u.name; role = u.role }

abbrev pub found_user : Option StoredUser → Option User
found_user none = none
found_user (some u) = some (to_user u)

abbrev pub found_hash : Option StoredUser → Option Text
found_hash none = none
found_hash (some u) = some u.password_hash

-- The table `USERS` is an argument: the code reads it and never writes it.
unfoldable pub find_user_by_login : List StoredUser → Text → Option User
find_user_by_login users login = found_user (find (λ u. text_eq u.login login) users)

unfoldable pub get_stored_hash : List StoredUser → Text → Option Text
get_stored_hash users login = found_hash (find (λ u. text_eq u.login login) users)
