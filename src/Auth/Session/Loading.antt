-- ===== src/Auth/Session/Loading.antt =====
-- What `loadSession` gives after `saveSession`, after `clearSession`, and in general.
use royale_ai_platform.Prelude.{
  ℕ, true, false, none, some, [], ◌≡◌, refl, ◌≢◌, inl, inr, if◌then◌else◌, ltb, is_empty_of_ne,
  Option-cases,
}
use royale_ai_platform.Text.{Text, text_eq, text_eq_refl}
use royale_ai_platform.Auth.Domain.{Session}
use royale_ai_platform.Auth.Session.{
  Storage, session_key, integrity_key, session, Platform, sign, verify, save_session, clear_session,
  load_session, hmac_key,
}
use royale_ai_platform.Auth.Session.Laws.{IsStorage, IsPlatform}

keys_differ :
    (text_eq session_key integrity_key ≡ false) × (text_eq integrity_key session_key ≡ false)
unfolding text_eq
keys_differ = (refl, refl)

module _ {W : Type 0} (store : Storage W) where
  -- Neither item is there.
  abbrev pub IsCleared : W → Type 0
  IsCleared w = (store.get_item session_key w ≡ none) × (store.get_item integrity_key w ≡ none)

module _ {W : Type 0} (platform : Platform) (store : Storage W) where
  -- What it means that both writes of `saveSession` were done.
  pub record IsSaved (s : Session) (w w' : W) : Type 0 where
    pub signature : Text
    pub signed : sign platform (platform.stringify s) ≡ some signature
    pub half : W
    pub first : store.set_item session_key (platform.stringify s) w ≡ some half
    pub second : store.set_item integrity_key signature half ≡ some w'

module _ {W : Type 0} {store : Storage W} (laws : IsStorage store) (platform : Platform) where
  pub clear_session-IsCleared : (w : W) → IsCleared store (clear_session platform store w)
  unfolding clear_session
  clear_session-IsCleared w = (
    rw (
      laws.get-remove integrity_key session_key (store.remove_item session_key w),
      keys_differ.1,
      laws.get-remove session_key session_key w,
      text_eq_refl session_key,
    ),
    rw (
      laws.get-remove integrity_key integrity_key (store.remove_item session_key w),
      text_eq_refl integrity_key,
    ),
  )

  -- After `clearSession`, as after a sign-out, no session is loaded, at any time.
  pub load-clear_session :
      (now : ℕ) (w : W)
      → load_session platform store now (clear_session platform store w)
        ≡ (none, clear_session platform store w)
  unfolding load_session
  load-clear_session now w = let (a, b) = clear_session-IsCleared w in rw a

  module _ (honest : IsPlatform platform) where
    signature_ok :
        (payload signature : Text)
        → sign platform payload ≡ some signature
        → (verify platform payload signature ≡ true) × (signature ≢ [])
    unfolding sign verify
    signature_ok payload signature e =
        elim (Option-cases (platform.hmac_sign (hmac_key platform) (platform.encode payload))) [
          | inl thrown ↦ absurd (let e' = rw thrown at e in cc)
          | inr (sig, signed) ↦
              let e' = rw signed at e in
              let same : platform.btoa sig ≡ signature = cc in
              let full = honest.btoa-ne-nil sig (honest.sign-ne-nil _ _ sig signed) in
              rw (← same)
                (rw (honest.atob-btoa sig) (rw (honest.verify-sign _ _ sig signed) refl), full)
        ]

    stringify-ne-nil : (s : Session) → platform.stringify s ≢ []
    stringify-ne-nil s e =
        let read = honest.parse-stringify s in
        let none_read : platform.parse (platform.stringify s) ≡ none = rw e honest.parse-empty in cc

    saved_items :
        (s : Session) (w w' : W) (saved : IsSaved platform store s w w')
        → (store.get_item session_key w' ≡ some (platform.stringify s))
          × (store.get_item integrity_key w' ≡ some saved.signature)
    saved_items s w w' saved = (
      rw (
        laws.get-set integrity_key session_key saved.signature saved.half w' saved.second,
        keys_differ.1,
        laws.get-set session_key session_key _ w saved.half saved.first,
        text_eq_refl session_key,
      ),
      rw (
        laws.get-set integrity_key integrity_key saved.signature saved.half w' saved.second,
        text_eq_refl integrity_key,
      ),
    )

    -- If both writes of `saveSession` are done, then what is loaded up to the expiry is the session
    -- that was saved, with the store as it is; after the expiry nothing is loaded, and the store is
    -- cleared.
    pub load-save_session :
        (now : ℕ) (s : Session) (w w' : W)
        → IsSaved platform store s w w'
        → (save_session platform store s w ≡ w')
          × (load_session platform store now w' ≡ (
              if ltb s.expires_at now
              then (none, clear_session platform store w')
              else (some (session s), w')))
    unfolding save_session load_session
    load-save_session now s w w' saved =
        let (payload_there, signature_there) = saved_items s w w' saved in
        let (verified, full) = signature_ok (platform.stringify s) saved.signature saved.signed in
        (
          rw (saved.signed, saved.first, saved.second),
          rw (
            payload_there,
            signature_there,
            is_empty_of_ne _ (stringify-ne-nil s),
            is_empty_of_ne _ full,
            verified,
            honest.parse-stringify s,
          ),
        )
