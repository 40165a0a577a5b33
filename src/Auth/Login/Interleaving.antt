-- ===== src/Auth/Login/Interleaving.antt =====
-- Calls of `login` that overlap: a call awaits `verifyPassword` between `isBlocked` and `logAttempt`,
-- so other calls run in between. A call whose login is in the table, with a hash, is cut there into two
-- halves. The first runs without a break, and so does the second where the password is wrong, up to
-- its delay.
use royale_ai_platform.Prelude.{
  ℕ, suc, ◌+◌, ◌<◌, ◌≤◌, Bool, true, false, none, some, List, [], ◌∷◌, ◌≡◌, ◌≢◌, refl, arith, inl,
  inr, if◌then◌else◌, length, All, Bool-cases,
}
use royale_ai_platform.Text.{Text}
use royale_ai_platform.Auth.Domain.{User, LoginResponse}
use royale_ai_platform.Auth.Attempts.{
  Attempts, StoredUser, no_attempts, block_duration_ms, max_attempts, log_attempt, is_blocked,
  find_user_by_login, get_stored_hash,
}
use royale_ai_platform.Auth.Password.{Crypto}
use royale_ai_platform.Auth.Session.{Storage, Platform}
use royale_ai_platform.Auth.Login.{
  Request, AuthState, failure, trimmed_login, trimmed_password, is_unfit, authenticate, conclude,
  login,
}

module _ {W : Type 0} where
  -- `login` up to the check of the password, and whether that is reached.
  unfoldable pub begin_login : Request → AuthState W → Bool × AuthState W
  begin_login r s =
      let (blocked, attempts') = is_blocked r.times.asked s.attempts in
      let s' = record s { attempts = attempts' } in
      if blocked
      then (false, s')
      else (if is_unfit (trimmed_login r) (trimmed_password r) then (false, s') else (true, s'))

  -- How many of the calls reach the check, where all of them begin one after another.
  unfoldable pub begin_all : List Request → AuthState W → ℕ × AuthState W
  begin_all [] s = (0, s)
  begin_all (r ∷ rs) s =
      let (reached, s') = begin_login r s in
      let (n, s'') = begin_all rs s' in (if reached then suc n else n, s'')

module _ (crypto : Crypto) (users : List StoredUser) (platform : Platform) {W : Type 0}
    (store : Storage W) where
  -- `login` from the check of the password on.
  unfoldable pub finish_login : Request → AuthState W → LoginResponse × AuthState W
  finish_login r s =
      conclude crypto users platform store
        (authenticate crypto users (trimmed_login r) (trimmed_password r)) r.times s

  unfoldable pub finish_all : List Request → AuthState W → AuthState W
  finish_all [] s = s
  finish_all (r ∷ rs) s = finish_all rs (finish_login r s).1

  -- A call that nothing interrupts is its two halves one after the other.
  pub login-halves :
      (r : Request) (s : AuthState W)
      → login crypto users platform store r s ≡ (
          if (begin_login r s).0
          then finish_login r (begin_login r s).1
          else (failure, (begin_login r s).1))
  unfolding login begin_login finish_login
  login-halves r s = elim (Bool-cases (is_blocked r.times.asked s.attempts).0) [
    | inl blocked ↦ rw blocked refl
    | inr open_lem ↦ elim (Bool-cases (is_unfit (trimmed_login r) (trimmed_password r))) [
      | inl unfit ↦ rw (open_lem, unfit) refl
      | inr fit ↦ rw (open_lem, fit) refl
    ]
  ]

  -- A call with texts that are not too long, of a login with a hash, against which the password is not
  -- verified; it logs its attempt at the time.
  pub record IsWrong (at : ℕ) (r : Request) : Type 0 where
    pub fit : is_unfit (trimmed_login r) (trimmed_password r) ≡ false
    pub user : User
    pub known : find_user_by_login users (trimmed_login r) ≡ some user
    pub hash : Text
    pub stored : get_stored_hash users (trimmed_login r) ≡ some hash
    pub hash_given : hash ≢ []
    pub wrong : authenticate crypto users (trimmed_login r) (trimmed_password r) ≡ none
    pub logged_at : r.times.logged ≡ at

  abbrev fresh_state : W → AuthState W
  fresh_state w = record { attempts = no_attempts; store = w }

  begin_all-fresh :
      (at : ℕ) (rs : List Request) (w : W)
      → All (IsWrong at) rs
      → begin_all rs (fresh_state w) ≡ (length rs, fresh_state w)
  unfolding begin_all begin_login is_blocked
  begin_all-fresh at [] w h = refl
  begin_all-fresh at (r ∷ rs) w (h, hs) = rw (h.fit, begin_all-fresh at rs w hs) refl

  -- Of so many attempts that failed at the time.
  record IsCounted (at n : ℕ) (a : Attempts) : Type 0 where
    counted : a.count ≡ n
    first : 0 < n → a.first_attempt ≡ at
    blocked : max_attempts ≤ n → a.blocked_until ≡ at + block_duration_ms

  log_attempt-IsCounted :
      (at n : ℕ) (a : Attempts) → IsCounted at n a → IsCounted at (n + 1) (log_attempt false at a)
  unfolding log_attempt
  log_attempt-IsCounted at n a h = record {
    counted = let c = h.counted in let f = h.first in ground arith;
    first = λ pos. let c = h.counted in let f = h.first in ground arith;
    blocked = λ enough. let c = h.counted in let f = h.first in ground arith;
  }

  finish_login-wrong :
      (at : ℕ) (r : Request) (s : AuthState W)
      → IsWrong at r
      → (finish_login r s).1 ≡ record s { attempts = log_attempt false at s.attempts }
  unfolding finish_login conclude
  finish_login-wrong at r s h = rw (h.wrong, h.logged_at) refl

  finish_all-IsCounted :
      (at n m : ℕ) (rs : List Request) (s : AuthState W)
      → All (IsWrong at) rs
      → m ≡ n + length rs
      → IsCounted at n s.attempts
      → IsCounted at m (finish_all rs s).attempts
  unfolding finish_all
  finish_all-IsCounted at n m [] s h e k = let e' : m ≡ n = omega (arith, e) in rw e' k
  finish_all-IsCounted at n m (r ∷ rs) s (h, hs) e k =
      let rest : IsCounted at m (finish_all rs (finish_login r s).1).attempts =
        rw (finish_login-wrong at r s h) (
          finish_all-IsCounted at (n + 1) m rs
            (record s { attempts = log_attempt false at s.attempts }) hs (omega (arith, e))
            (log_attempt-IsCounted at n s.attempts k)) in
      rest

  is_blocked-true :
      (at : ℕ) (a : Attempts) (now : ℕ)
      → a.blocked_until ≡ at + block_duration_ms
      → now < at + block_duration_ms
      → is_blocked now a ≡ (true, a)
  unfolding is_blocked
  is_blocked-true at a now until early = ground arith

  still_blocked :
      (at n : ℕ) (s : AuthState W) (r : Request)
      → IsCounted at n s.attempts
      → max_attempts ≤ n
      → r.times.asked < at + block_duration_ms
      → login crypto users platform store r s ≡ (failure, s)
  unfolding login
  still_blocked at n s r h enough early =
      let stopped : is_blocked r.times.asked s.attempts ≡ (true, s.attempts) =
        is_blocked-true at s.attempts r.times.asked (h.blocked enough) early in
      rw stopped refl

  -- Five or more calls with wrong passwords begin, on a page just loaded, before the first of them
  -- finishes. Then each of them reaches the check of the password, whatever their number. Once they have
  -- finished, at one reading of the clock, a call in the next minute is refused, and changes nothing.
  pub login_overlapping :
      (at : ℕ) (rs : List Request) (w : W) (r : Request)
      → All (IsWrong at) rs
      → max_attempts ≤ length rs
      → r.times.asked < at + block_duration_ms
      → ((begin_all rs (fresh_state w)).0 ≡ length rs)
        × (login crypto users platform store r (finish_all rs (begin_all rs (fresh_state w)).1)
            ≡ (failure, finish_all rs (begin_all rs (fresh_state w)).1))
  login_overlapping at rs w r h enough early =
      let begun = begin_all-fresh at rs w h in
      let none_yet : IsCounted at 0 no_attempts = record {
        counted = refl;
        first = λ pos. absurd (omega (arith, pos));
        blocked = λ full. absurd (omega (arith, full));
      } in
      let counted =
        finish_all-IsCounted at 0 (length rs) rs (fresh_state w) h (omega arith) none_yet in
      rw begun
        (refl, still_blocked at (length rs) (finish_all rs (fresh_state w)) r counted enough early)
