-- ===== src/Auth/Session/Rejecting.antt =====
-- Which stored items `loadSession` accepts, and what it leaves in the store when it gives nothing.
use royale_ai_platform.Prelude.{
  ℕ, ◌≤◌, true, Option, none, some, [], ◌∷◌, ◌≡◌, refl, ◌⊎◌, inl, inr, arith, ltb, is_empty, ◌||◌,
  Bool-cases,
}
use royale_ai_platform.Text.{Text}
use royale_ai_platform.Auth.Session.{
  Storage, session_key, integrity_key, Payload, session, null, other, Platform, verify,
  clear_session, load_session, load_items, check_expiry,
}

-- A session is in time up to its expiry, and so is another value that has one.
abbrev pub IsInTime : ℕ → Payload → Type 0
IsInTime now (session s) = now ≤ s.expires_at
IsInTime now null = ⊥
IsInTime now (other none t) = Unit
IsInTime now (other (some n) t) = now ≤ n

module _ (platform : Platform) where
  -- The items from which a value is loaded.
  pub record IsAccepted (now : ℕ) (stored signed : Option Text) (p : Payload) : Type 0 where
    pub payload : Text
    pub signature : Text
    pub stored_lem : stored ≡ some payload
    pub signed_lem : signed ≡ some signature
    pub verified : verify platform payload signature ≡ true
    pub parsed : platform.parse payload ≡ some p
    pub in_time : IsInTime now p

  -- One of the items is missing or empty.
  abbrev pub IsMissing : Option Text → Option Text → Type 0
  IsMissing stored signed =
      (stored ≡ none) ⊎ (signed ≡ none) ⊎ (stored ≡ some []) ⊎ (signed ≡ some [])

  module _ {W : Type 0} (store : Storage W) where
    check_expiry_sound :
        (now : ℕ) (o : Option Payload) (w w' : W) (p : Payload)
        → check_expiry platform store now o w ≡ (some p, w')
        → (o ≡ some p) × IsInTime now p × (w' ≡ w)
    check_expiry_sound now none w w' p e = absurd (ground arith)
    check_expiry_sound now (some null) w w' p e = absurd (ground arith)
    check_expiry_sound now (some (other none t)) w w' p e =
        let same : other none t ≡ p = ground arith in rw (← same) (refl, tt, ground arith)
    check_expiry_sound now (some (other (some n) t)) w w' p e = elim (Bool-cases (ltb n now)) [
      | inl late ↦ absurd (let e' = rw late at e in ground arith)
      | inr in_time ↦
          let e' = rw in_time at e in
          let same : other (some n) t ≡ p = ground arith in
          rw (← same) (refl, ground arith, ground arith)
    ]
    check_expiry_sound now (some (session s)) w w' p e = elim (Bool-cases (ltb s.expires_at now)) [
      | inl late ↦ absurd (let e' = rw late at e in ground arith)
      | inr in_time ↦
          let e' = rw in_time at e in
          let same : session s ≡ p = ground arith in rw (← same) (refl, ground arith, ground arith)
    ]

    load_items_sound :
        (now : ℕ) (stored signed : Option Text) (w w' : W) (p : Payload)
        → load_items platform store now stored signed w ≡ (some p, w')
        → IsAccepted now stored signed p × (w' ≡ w)
    load_items_sound now (some payload) (some signature) w w' p e =
        elim (Bool-cases (is_empty payload || is_empty signature)) [
          | inl empty ↦ absurd (let e' = rw empty at e in ground arith)
          | inr full ↦
              let e' = rw full at e in
              elim (Bool-cases (verify platform payload signature)) [
                | inl good ↦
                    let (parsed, in_time, same) =
                      check_expiry_sound now (platform.parse payload) w w' p (rw good at e') in
                    (
                      record {
                        payload = payload;
                        signature = signature;
                        stored_lem = refl;
                        signed_lem = refl;
                        verified = good;
                        parsed = parsed;
                        in_time = in_time;
                      },
                      same,
                    )
                | inr bad ↦ absurd (let e'' = rw bad at e' in ground arith)
              ]
        ]
    load_items_sound now _ _ w w' p e = absurd (ground arith)

    -- A value is loaded only if both items are there, the signature verifies, the payload parses to
    -- that value and its expiry, if it has one, is not past; the store stays as it is.
    pub load_session_sound :
        (now : ℕ) (w w' : W) (p : Payload)
        → load_session platform store now w ≡ (some p, w')
        → IsAccepted now (store.get_item session_key w) (store.get_item integrity_key w) p
          × (w' ≡ w)
    unfolding load_session
    load_session_sound now w w' p e = load_items_sound now _ _ w w' p e

    check_expiry-none :
        (now : ℕ) (o : Option Payload) (w w' : W)
        → check_expiry platform store now o w ≡ (none, w')
        → w' ≡ clear_session platform store w
    check_expiry-none now none w w' e = ground arith
    check_expiry-none now (some null) w w' e = ground arith
    check_expiry-none now (some (other none t)) w w' e = absurd (ground arith)
    check_expiry-none now (some (other (some n) t)) w w' e = ground arith
    check_expiry-none now (some (session s)) w w' e = ground arith

    load_items-none :
        (now : ℕ) (stored signed : Option Text) (w w' : W)
        → load_items platform store now stored signed w ≡ (none, w')
        → (IsMissing stored signed × (w' ≡ w)) ⊎ (w' ≡ clear_session platform store w)
    load_items-none now none signed w w' e = inl (inl refl, ground arith)
    load_items-none now (some payload) none w w' e = inl (inr (inl refl), ground arith)
    load_items-none now (some []) (some signature) w w' e = inl (inr (inr (inl refl)), ground arith)
    load_items-none now (some (c ∷ payload)) (some []) w w' e =
        inl (inr (inr (inr refl)), ground arith)
    load_items-none now (some (c ∷ payload)) (some (d ∷ signature)) w w' e =
        elim (Bool-cases (verify platform (c ∷ payload) (d ∷ signature))) [
          | inl good ↦ inr (check_expiry-none now _ w w' (rw good at e))
          | inr bad ↦ inr (let e' = rw bad at e in ground arith)
        ]

    -- When nothing is loaded, either an item was missing or empty and the store stays as it is, or the
    -- store is cleared: a payload that was tampered with, is malformed or is out of date does not
    -- stay.
    pub load_session-none :
        (now : ℕ) (w w' : W)
        → load_session platform store now w ≡ (none, w')
        → (IsMissing (store.get_item session_key w) (store.get_item integrity_key w) × (w' ≡ w))
          ⊎ (w' ≡ clear_session platform store w)
    unfolding load_session
    load_session-none now w w' e = load_items-none now _ _ w w' e
