-- ===== src/Auth/Login/Limit.antt =====
-- How many passwords can be tried by calls of `login` that come one after another.
use royale_ai_platform.Prelude.{
  ℕ, ◌+◌, ◌*◌, ◌-◌, ◌/◌, ◌≤◌, Bool, false, Option, none, some, List, [], ◌∷◌, ◌≡◌, refl, inl, inr,
  arith, if◌then◌else◌, not, ◌&&◌, Bool-cases,
}
use royale_ai_platform.Auth.Domain.{User}
use royale_ai_platform.Auth.Attempts.{
  StoredUser, no_attempts, max_attempts, block_duration_ms, log_attempt, is_blocked,
}
use royale_ai_platform.Auth.Attempts.Rate.{
  IsPacedSome, no_attempts-IsPaced, is_blocked-IsPaced, IsPaced-later, log_attempt-IsPaced,
  IsPaced-bound,
}
use royale_ai_platform.Auth.Password.{Crypto}
use royale_ai_platform.Auth.Session.{Storage, Platform}
use royale_ai_platform.Auth.Login.{
  Times, Request, AuthState, trimmed_login, trimmed_password, is_unfit, conclude, login,
}

-- The readings of the clock do not fall, from `now` to `end`.
abbrev pub IsOrdered : ℕ → List Request → ℕ → Type 0
IsOrdered now [] end = now ≤ end
IsOrdered now (r ∷ rs) end =
    (now ≤ r.times.asked) × (r.times.asked ≤ r.times.logged) × IsOrdered r.times.logged rs end

module _ (crypto : Crypto) (users : List StoredUser) (platform : Platform) {W : Type 0}
    (store : Storage W) where
  -- Whether a call looks the user up and checks the password: it is let through and is fit.
  abbrev pub tries_password : Request → AuthState W → Bool
  tries_password r s =
      not (is_blocked r.times.asked s.attempts).0
      && not (is_unfit (trimmed_login r) (trimmed_password r))

  -- How many calls of a sequence try a password.
  unfoldable pub tries : List Request → AuthState W → ℕ
  tries [] s = 0
  tries (r ∷ rs) s =
      let rest = tries rs (login crypto users platform store r s).1 in
      if tries_password r s then rest + 1 else rest

  -- No call of a sequence succeeds.
  abbrev pub AllRefused : List Request → AuthState W → Type 0
  AllRefused [] s = Unit
  AllRefused (r ∷ rs) s =
      ((login crypto users platform store r s).0.success ≡ false)
      × AllRefused rs (login crypto users platform store r s).1

  conclude_refused :
      (o : Option User) (t : Times) (s : AuthState W)
      → (conclude crypto users platform store o t s).0.success ≡ false
      → (conclude crypto users platform store o t s).1.attempts
        ≡ log_attempt false t.logged s.attempts
  unfolding conclude
  conclude_refused none t s h = refl
  conclude_refused (some u) t s h = cc

  abbrev opened : Request → AuthState W → AuthState W
  opened r s = record s { attempts = (is_blocked r.times.asked s.attempts).1 }

  -- What one refused call does to the count.
  refused-IsPaced :
      {start failures now : ℕ} (r : Request) (s : AuthState W)
      → IsPacedSome start failures now s.attempts
      → now ≤ r.times.asked
      → r.times.asked ≤ r.times.logged
      → (login crypto users platform store r s).0.success ≡ false
      → IsPacedSome start
          (if tries_password r s then failures + 1 else failures)
          r.times.logged
          (login crypto users platform store r s).1.attempts
  unfolding login
  refused-IsPaced r s p h i refused =
      let ((k, q), room) = is_blocked-IsPaced r.times.asked p h in
      elim (Bool-cases (is_blocked r.times.asked s.attempts).0) [
        | inl blocked ↦ rw blocked (k, IsPaced-later r.times.logged q i)
        | inr free ↦ elim (Bool-cases (is_unfit (trimmed_login r) (trimmed_password r))) [
          | inl unfit ↦ rw (free, unfit) (k, IsPaced-later r.times.logged q i)
          | inr fit ↦
              let refused' = rw (free, fit) at refused in
              rw (free, fit, conclude_refused _ r.times (opened r s) refused')
                (log_attempt-IsPaced r.times.logged q (room free) i)
        ]
      ]

  run_bound :
      (start failures now end : ℕ) (rs : List Request) (s : AuthState W)
      → IsPacedSome start failures now s.attempts
      → IsOrdered now rs end
      → AllRefused rs s
      → failures + tries rs s ≤ max_attempts * ((end - start) / block_duration_ms + 1)
  unfolding tries
  run_bound start failures now end [] s (k, p) h refused =
      omega (arith, IsPaced-bound (k, IsPaced-later end p h))
  run_bound start failures now end (r ∷ rs) s p (h, i, o) (refused, more) =
      let paced = refused-IsPaced r s p h i refused in
      let ih =
        run_bound start (if tries_password r s then failures + 1 else failures) r.times.logged end
          rs _ paced o more in
      elim (Bool-cases (tries_password r s)) [
        | inl tried ↦ rw tried (let ih' = rw tried at ih in omega arith)
        | inr not_tried ↦ rw not_tried (let ih' = rw not_tried at ih in omega arith)
      ]

  -- If the calls of a sequence come one after another, from a count that starts at nothing, the
  -- clock does not fall and none of the calls succeeds, then the calls that try a password number
  -- at most five for each whole minute from the start to the end, and five more.
  pub tries-bound :
      (start end : ℕ) (rs : List Request) (s : AuthState W)
      → s.attempts ≡ no_attempts
      → IsOrdered start rs end
      → AllRefused rs s
      → tries rs s ≤ max_attempts * ((end - start) / block_duration_ms + 1)
  tries-bound start end rs s e o refused =
      let paced = rw (← e) at (no_attempts-IsPaced start) in
      omega (arith, run_bound start 0 start end rs s paced o refused)
