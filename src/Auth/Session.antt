-- ===== src/Auth/Session.antt =====
-- The stored session: frontend/src/auth/infrastructure/session.ts. `sessionStorage`, JSON, the HMAC
-- of the platform and base 64 are parameters. `getItem` and `removeItem` of `sessionStorage` do not
-- throw; `setItem` may, and then gives `none`. The module's `Map` is the list `memory`.
pub mod Laws
pub mod Loading
pub mod Rejecting
use mathlib.Core.Option
use royale_ai_platform.Prelude.{
  ℕ, Bool, true, false, Option, none, some, List, [], ◌∷◌, ltb, is_empty, ◌||◌, if◌then◌else◌,
}
use royale_ai_platform.Text.{Text, text, text_eq}
use royale_ai_platform.Auth.Domain.{Session, AuthUser}

-- A `Storage` over a state.
pub record Storage (S : Type 0) : Type 0 where
  pub get_item : Text → S → Option Text
  pub set_item : Text → Text → S → Option S
  pub remove_item : Text → S → S

-- `memoryStore`, a `Map` in insertion order.
abbrev pub MemoryStore : Type 0
MemoryStore = List (Text × Text)

unfoldable pub map_get : Text → MemoryStore → Option Text
map_get key [] = none
map_get key ((k, v) ∷ m) = let rest = map_get key m in if text_eq k key then some v else rest

unfoldable pub map_set : Text → Text → MemoryStore → MemoryStore
map_set key value [] = (key, value) ∷ []
map_set key value ((k, v) ∷ m) =
    let rest = (k, v) ∷ map_set key value m in if text_eq k key then (k, value) ∷ m else rest

unfoldable pub map_delete : Text → MemoryStore → MemoryStore
map_delete key [] = []
map_delete key ((k, v) ∷ m) =
    let rest = (k, v) ∷ map_delete key m in
    let without = map_delete key m in if text_eq k key then without else rest

-- `MemoryStorage`
abbrev pub memory_storage : Storage MemoryStore
memory_storage = record {
  get_item = map_get;
  set_item = λ key value m. some (map_set key value m);
  remove_item = map_delete;
}

-- The session storage and the fallback, which both stay while the other is in use.
pub record Stores (S : Type 0) : Type 0 where
  pub session_storage : S
  pub memory : MemoryStore

module _ {S : Type 0} (api : Storage S) where
  abbrev with_session_storage : MemoryStore → Option S → Option (Stores S)
  with_session_storage m none = none
  with_session_storage m (some s) = some (record { session_storage = s; memory = m })

  -- `getStore()`, where the argument is what `getStorage` finds at that call: whether the session
  -- storage can be used.
  abbrev pub get_store : Bool → Storage (Stores S)
  get_store true = record {
    get_item = λ key w. api.get_item key w.session_storage;
    set_item =
        λ key value w. with_session_storage w.memory (api.set_item key value w.session_storage);
    remove_item = λ key w. record {
      session_storage = api.remove_item key w.session_storage;
      memory = w.memory;
    };
  }
  get_store false = record {
    get_item = λ key w. memory_storage.get_item key w.memory;
    set_item = λ key value w.
        some (record { session_storage = w.session_storage; memory = map_set key value w.memory });
    remove_item = λ key w. record {
      session_storage = w.session_storage;
      memory = memory_storage.remove_item key w.memory;
    };
  }

abbrev pub session_key : Text
session_key = text "royale_session"

abbrev pub integrity_key : Text
integrity_key = text "royale_session_sig"

-- What `JSON.parse` may give: a session, `null`, or some other value, with the number that its
-- `expiresAt` is compared as, `none` where no number is exceeded: it is missing or not numeric.
pub data Payload : Type 0 where
  session : Session → Payload
  null : Payload
  other : Option ℕ → Text → Payload

pub record Platform : Type 0 where
  pub stringify : Session → Text
  -- `none` where `JSON.parse` throws
  pub parse : Text → Option Payload
  pub encode : Text → List ℕ
  -- `none` where the platform throws
  pub hmac_sign : List ℕ → List ℕ → Option (List ℕ)
  pub hmac_verify : List ℕ → List ℕ → List ℕ → Option Bool
  pub btoa : List ℕ → Text
  pub atob : Text → Option (List ℕ)

module _ (platform : Platform) where
  open platform use {stringify, parse, encode, hmac_sign, hmac_verify, btoa, atob}

  abbrev pub hmac_key : List ℕ
  hmac_key = encode (text "royale-session-integrity-v1")

  abbrev to_base64 : Option (List ℕ) → Option Text
  to_base64 none = none
  to_base64 (some sig) = some (btoa sig)

  unfoldable pub sign : Text → Option Text
  sign payload = to_base64 (hmac_sign hmac_key (encode payload))

  abbrev verify_bytes : Text → Option (List ℕ) → Option Bool
  verify_bytes payload none = none
  verify_bytes payload (some sig) = hmac_verify hmac_key sig (encode payload)

  -- The `catch` gives false.
  abbrev or_false : Option Bool → Bool
  or_false none = false
  or_false (some b) = b

  unfoldable pub verify : Text → Text → Bool
  verify payload signature = or_false (verify_bytes payload (atob signature))

  module _ {W : Type 0} (store : Storage W) where
    -- The second `setItem`; where it throws, the first has been done.
    abbrev set_signature : Text → W → Option W → W
    set_signature signature w none = w
    set_signature signature w (some w') =
        Option.get_or (store.set_item integrity_key signature w') w'

    abbrev store_signed : Text → Option Text → W → W
    store_signed payload none w = w
    store_signed payload (some signature) w =
        set_signature signature w (store.set_item session_key payload w)

    unfoldable pub save_session : Session → W → W
    unfolding sign
    save_session s w = store_signed (stringify s) (sign (stringify s)) w

    unfoldable pub clear_session : W → W
    clear_session w = store.remove_item integrity_key (store.remove_item session_key w)

    -- `Date.now() > session.expiresAt`; reading a field of `null` throws.
    abbrev check_expiry : ℕ → Option Payload → W → Option Payload × W
    check_expiry now none w = (none, clear_session w)
    check_expiry now (some null) w = (none, clear_session w)
    check_expiry now (some (other none t)) w = (some (other none t), w)
    check_expiry now (some (other (some n) t)) w =
        if ltb n now then (none, clear_session w) else (some (other (some n) t), w)
    check_expiry now (some (session s)) w =
        if ltb s.expires_at now then (none, clear_session w) else (some (session s), w)

    abbrev load_items : ℕ → Option Text → Option Text → W → Option Payload × W
    load_items now (some payload) (some signature) w =
        if is_empty payload || is_empty signature
        then (none, w)
        else (if verify payload signature
            then check_expiry now (parse payload) w
            else (none, clear_session w))
    load_items now _ _ w = (none, w)

    unfoldable pub load_session : ℕ → W → Option Payload × W
    load_session now w =
        load_items now (store.get_item session_key w) (store.get_item integrity_key w) w

unfoldable pub session_to_auth_user : Session → AuthUser
session_to_auth_user s = record {
  id = s.user_id;
  login = s.login;
  name = s.name;
  role = s.role;
  permissions = s.permissions;
}
