-- ===== src/Auth/Attempts/Rate.antt =====
-- How fast failed sign-ins can follow one another, when a call asks `isBlocked` and, if it is let
-- through, ends in `logAttempt(_, false)`. Clock readings are assumed not to fall.
use royale_ai_platform.Prelude.{
  ℕ, ◌+◌, ◌*◌, ◌-◌, ◌/◌, ◌≤◌, false, ◌≡◌, inl, inr, arith, ltb, ◌==◌, Bool-cases, ◌≢◌,
}
use royale_ai_platform.Auth.Attempts.{
  Attempts, no_attempts, max_attempts, block_duration_ms, reset_interval_ms, log_attempt,
  is_blocked,
}

-- After `failures` failed attempts since `start`, in the `k`-th group of five, at the time `now`.
pub record IsPaced (start k failures now : ℕ) (a : Attempts) : Type 0 where
  pub counted : failures ≤ max_attempts * k + a.count
  pub capped : a.count ≤ max_attempts
  pub reached : start + block_duration_ms * k ≤ now
  pub stamped : 1 ≤ a.count → start + block_duration_ms * k ≤ a.first_attempt
  pub past : a.first_attempt ≤ now
  pub blocks :
      a.count ≡ max_attempts → start + block_duration_ms * k + block_duration_ms ≤ a.blocked_until
  pub open_below : a.count ≢ max_attempts → a.blocked_until ≡ 0

abbrev pub IsPacedSome : ℕ → ℕ → ℕ → Attempts → Type 0
IsPacedSome start failures now a = (k : ℕ) × IsPaced start k failures now a

pub no_attempts-IsPaced : (start : ℕ) → IsPacedSome start 0 start no_attempts
no_attempts-IsPaced start = (0, ground arith)

-- Time passes.
pub IsPaced-later :
    {start k failures now : ℕ} {a : Attempts} (later : ℕ)
    → IsPaced start k failures now a
    → now ≤ later
    → IsPaced start k failures later a
IsPaced-later later p h = ground arith

-- A call that is let through finds fewer than five attempts counted.
pub is_blocked-IsPaced :
    {start failures now : ℕ} {a : Attempts} (check : ℕ)
    → IsPacedSome start failures now a
    → now ≤ check
    → IsPacedSome start failures check (is_blocked check a).1
      × ((is_blocked check a).0 ≡ false → (is_blocked check a).1.count ≢ max_attempts)
unfolding is_blocked
is_blocked-IsPaced {a} check (k, p) h = elim (Bool-cases (a.count == max_attempts)) [
  | inr few ↦ ((k, ground arith), ground arith)
  | inl full ↦ elim (Bool-cases (ltb check a.blocked_until)) [
    | inl early ↦ ((k, ground arith), ground arith)
    | inr late ↦ ((k + 1, ground arith), ground arith)
  ]
]

-- A failed attempt that is let through keeps the pace, in this group of five or in the next.
pub log_attempt-IsPaced :
    {start k failures now : ℕ} {a : Attempts} (logged : ℕ)
    → IsPaced start k failures now a
    → a.count ≢ max_attempts
    → now ≤ logged
    → IsPacedSome start (failures + 1) logged (log_attempt false logged a)
unfolding log_attempt
log_attempt-IsPaced {k} {a} logged p room h = elim (Bool-cases (a.count == 0)) [
  | inl first ↦ (k, ground arith)
  | inr later ↦ elim (Bool-cases (ltb (a.first_attempt + reset_interval_ms) logged)) [
    | inr fresh ↦ (k, ground arith)
    | inl stale ↦ (k + 1, ground arith)
  ]
]

-- The pace as a bound: five failures for each block that fits into the time passed, and five more.
pub IsPaced-bound :
    {start failures now : ℕ} {a : Attempts}
    → IsPacedSome start failures now a
    → failures ≤ max_attempts * ((now - start) / block_duration_ms + 1)
IsPaced-bound (k, p) = omega arith
