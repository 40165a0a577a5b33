-- ===== src/Auth/Session/Laws.antt =====
-- What the stores and the platform promise, and that the stores of the source keep it.
use royale_ai_platform.Prelude.{
  ℕ, true, none, some, List, [], ◌∷◌, ◌≡◌, refl, ◌≢◌, arith, if◌then◌else◌,
}
use royale_ai_platform.Text.{Text, text_eq, text_eq_iff}
use royale_ai_platform.Auth.Domain.{Session}
use royale_ai_platform.Auth.Session.{
  Storage, MemoryStore, memory_storage, map_get, map_set, map_delete, session, Platform,
}

-- The laws of a `Storage`: what is read after a write and after a removal.
pub record IsStorage {S : Type 0} (api : Storage S) : Type 0 where
  pub get-set :
      (key j value : Text) (s s' : S)
      → api.set_item key value s ≡ some s'
      → api.get_item j s' ≡ (if text_eq key j then some value else api.get_item j s)
  pub get-remove :
      (key j : Text) (s : S)
      → api.get_item j (api.remove_item key s) ≡ (if text_eq key j then none else api.get_item j s)

-- The laws of JSON, the HMAC and base 64 that the session rests on.
pub record IsPlatform (p : Platform) : Type 0 where
  pub parse-stringify : (s : Session) → p.parse (p.stringify s) ≡ some (session s)
  pub parse-empty : p.parse [] ≡ none
  pub atob-btoa : (bytes : List ℕ) → p.atob (p.btoa bytes) ≡ some bytes
  pub btoa-ne-nil : (bytes : List ℕ) → bytes ≢ [] → p.btoa bytes ≢ []
  pub sign-ne-nil : (key message sig : List ℕ) → p.hmac_sign key message ≡ some sig → sig ≢ []
  pub verify-sign :
      (key message sig : List ℕ)
      → p.hmac_sign key message ≡ some sig
      → p.hmac_verify key sig message ≡ some true

map_get-set :
    (key j value : Text) (m : MemoryStore)
    → map_get j (map_set key value m) ≡ (if text_eq key j then some value else map_get j m)
unfolding map_get map_set
map_get-set key j value [] = refl
map_get-set key j value ((k, v) ∷ m) =
    ground (arith, text_eq_iff k key, text_eq_iff k j, text_eq_iff key j, map_get-set key j value m)

map_get-delete :
    (key j : Text) (m : MemoryStore)
    → map_get j (map_delete key m) ≡ (if text_eq key j then none else map_get j m)
unfolding map_get map_delete
map_get-delete key j [] = ground arith
map_get-delete key j ((k, v) ∷ m) =
    ground (arith, text_eq_iff k key, text_eq_iff k j, text_eq_iff key j, map_get-delete key j m)

memory_get-set :
    (key j value : Text) (m m' : MemoryStore)
    → some (map_set key value m) ≡ some m'
    → map_get j m' ≡ (if text_eq key j then some value else map_get j m)
memory_get-set key j value m m' e =
    let same : map_set key value m ≡ m' = cc in rw (← same) (map_get-set key j value m)

pub memory_storage-IsStorage : IsStorage memory_storage
memory_storage-IsStorage = record {
  get-set = λ key j value s s' e. memory_get-set key j value s s' e;
  get-remove = λ key j s. map_get-delete key j s;
}
