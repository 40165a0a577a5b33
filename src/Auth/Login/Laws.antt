-- ===== src/Auth/Login/Laws.antt =====
-- Who is signed in, and what a call changes.
use royale_ai_platform.Prelude.{
  ℕ, ◌+◌, ◌≤◌, true, false, Option, none, some, List, [], ◌∷◌, ◌≡◌, refl, ◌≢◌, ◌↔◌, inl, inr, arith,
  if◌then◌else◌, ltb, length, Option-cases, find,
}
use royale_ai_platform.Text.{Text, text_eq}
use royale_ai_platform.Auth.Domain.{User}
use royale_ai_platform.Auth.Attempts.{
  StoredUser, no_attempts, to_user, log_attempt, is_blocked, find_user_by_login, get_stored_hash,
}
use royale_ai_platform.Auth.Password.{Crypto, verify_password}
use royale_ai_platform.Auth.Session.{Storage, Platform, session}
use royale_ai_platform.Auth.Session.Laws.{IsStorage, IsPlatform}
use royale_ai_platform.Auth.Session.Loading.{IsSaved, load-save_session}
use royale_ai_platform.Auth.Login.{
  Times, Request, AuthState, failure, trimmed_login, trimmed_password, is_unfit, session_of,
  session_duration_ms, authenticate, conclude, login, get_current_session,
}

fit_of : (l p : Text) → l ≢ [] → length l ≤ 100 → p ≢ [] → length p ≤ 128 → is_unfit l p ≡ false
fit_of [] p h i j k = absurd (h refl)
fit_of (c ∷ l) [] h i j k = absurd (j refl)
fit_of (c ∷ l) (d ∷ p) h i j k = ground arith

module _ (crypto : Crypto) (users : List StoredUser) where
  -- The entry of the table that a login and a password belong to.
  pub record IsKnown (login_id password : Text) (u : User) : Type 0 where
    pub entry : StoredUser
    pub found : find (λ v. text_eq v.login login_id) users ≡ some entry
    pub stored : entry.password_hash ≢ []
    pub verified : verify_password crypto password entry.password_hash ≡ true
    pub same : to_user entry ≡ u

  authenticate_sound :
      (login_id password : Text) (u : User)
      → authenticate crypto users login_id password ≡ some u
      → IsKnown login_id password u
  unfolding authenticate find_user_by_login get_stored_hash
  authenticate_sound login_id password u e =
      elim (Option-cases (find (λ v. text_eq v.login login_id) users)) [
        | inl missing ↦ absurd (let e' = rw missing at e in cc)
        | inr (v, found) ↦
            let e' = rw found at e in
            record {
              entry = v;
              found = found;
              stored = λ n. ground arith;
              verified = ground arith;
              same = ground arith;
            }
      ]

  authenticate_complete :
      (login_id password : Text) (u : User)
      → IsKnown login_id password u
      → authenticate crypto users login_id password ≡ some u
  unfolding authenticate find_user_by_login get_stored_hash
  authenticate_complete login_id password u k = rw k.found (ground arith)

  module _ (platform : Platform) {W : Type 0} (store : Storage W) where
    -- What a call of `login` must meet to succeed.
    pub record IsAdmitted (r : Request) (s : AuthState W) : Type 0 where
      pub open_lem : (is_blocked r.times.asked s.attempts).0 ≡ false
      pub named : trimmed_login r ≢ []
      pub named_short : length (trimmed_login r) ≤ 100
      pub keyed : trimmed_password r ≢ []
      pub keyed_short : length (trimmed_password r) ≤ 128
      pub user : User
      pub known : IsKnown (trimmed_login r) (trimmed_password r) user

    conclude_refusal :
        (o : Option User) (t : Times) (s : AuthState W)
        → (conclude crypto users platform store o t s).0.success ≡ false
        → ((conclude crypto users platform store o t s).0 ≡ failure)
          × ((conclude crypto users platform store o t s).1.store ≡ s.store)
    unfolding conclude
    conclude_refusal none t s h = (refl, refl)
    conclude_refusal (some u) t s h = cc

    conclude-success_iff :
        (o : Option User) (t : Times) (s : AuthState W)
        → ((conclude crypto users platform store o t s).0.success ≡ true)
          ↔ ((u : User) × (o ≡ some u))
    unfolding conclude
    conclude-success_iff none t s = (λ h. cc, λ h. absurd (let e = h.1 in cc))
    conclude-success_iff (some u) t s = (λ h. (u, refl), λ h. refl)

    login-IsAdmitted :
        (r : Request) (s : AuthState W) (a : IsAdmitted r s)
        → login crypto users platform store r s
          ≡ conclude crypto users platform store
              (some a.user)
              r.times
              (record s { attempts = (is_blocked r.times.asked s.attempts).1 })
    unfolding login
    login-IsAdmitted r s a = rw (
      a.open_lem,
      fit_of (trimmed_login r) (trimmed_password r) a.named a.named_short a.keyed a.keyed_short,
      authenticate_complete (trimmed_login r) (trimmed_password r) a.user a.known,
    )

    -- A call succeeds exactly if the sign-in is not blocked, neither text is empty or too long, and the
    -- table holds the login with a hash against which the password is verified.
    pub login-success_iff :
        (r : Request) (s : AuthState W)
        → ((login crypto users platform store r s).0.success ≡ true) ↔ IsAdmitted r s
    unfolding login conclude
    login-success_iff r s = (to, from)
      where
        l : Text
        l = trimmed_login r

        p : Text
        p = trimmed_password r

        at_end : AuthState W
        at_end = record s { attempts = (is_blocked r.times.asked s.attempts).1 }

        to : (login crypto users platform store r s).0.success ≡ true → IsAdmitted r s
        to h =
            let (u, e) =
              (conclude-success_iff (authenticate crypto users l p) r.times at_end).0
                (ground arith) in
            record {
              open_lem = ground arith;
              named = λ e. ground arith;
              named_short = ground arith;
              keyed = λ e. ground arith;
              keyed_short = ground arith;
              user = u;
              known = authenticate_sound l p u e;
            }

        from : IsAdmitted r s → (login crypto users platform store r s).0.success ≡ true
        from a = rw (login-IsAdmitted r s a)

    -- Every refusal, for whatever reason, gives one and the same answer, and leaves the stores as
    -- they are.
    pub login_refusal :
        (r : Request) (s : AuthState W)
        → (login crypto users platform store r s).0.success ≡ false
        → ((login crypto users platform store r s).0 ≡ failure)
          × ((login crypto users platform store r s).1.store ≡ s.store)
    unfolding login
    login_refusal r s h = ground (
      arith,
      conclude_refusal (authenticate crypto users (trimmed_login r) (trimmed_password r)) r.times
          (record s { attempts = (is_blocked r.times.asked s.attempts).1 }),
    )

    -- If a call is admitted, the platform and the stores keep their laws and both writes of the
    -- session are done, then the count of failed attempts is reset, and up to eight hours after the
    -- reading of the clock for the expiry the current session is that of the user, with the
    -- permissions of the user's role; later there is none.
    pub get_current_session-login :
        (honest : IsPlatform platform) (laws : IsStorage store) (r : Request) (s : AuthState W)
        (a : IsAdmitted r s) (w : W) (now : ℕ)
        → IsSaved platform store (session_of a.user r.times.issued) s.store w
        → let s' = (login crypto users platform store r s).1 in
          (s'.attempts ≡ no_attempts)
          × ((get_current_session platform store now s').0 ≡ (
              if ltb (r.times.issued + session_duration_ms) now
              then none
              else some (session (session_of a.user r.times.issued))))
    unfolding conclude get_current_session log_attempt
    get_current_session-login honest laws r s a w now saved =
        let (kept, loaded) = load-save_session laws platform honest now _ s.store w saved in
        rw (login-IsAdmitted r s a, kept) (refl, rw loaded (ground arith))
