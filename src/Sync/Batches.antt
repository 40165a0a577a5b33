-- ===== src/Sync/Batches.antt =====
-- The loops over batches of the synchronisation: frontend/src/services/sync-batches.ts. The session
-- storage, the backend with its network and the clock are arguments; the state `V` of the backend
-- includes the time. The callback `progress` is the log of its messages, and is taken not to throw.
pub mod Products
pub mod OrderItems
use royale_ai_platform.Prelude.{
  ◌≡◌, refl, ◌⊎◌, inl, inr, ℕ, zero, suc, ◌<◌, Bool, true, false, Option, none, some, List, [], ◌∷◌,
  ◌++◌, ◌&&◌, ◌||◌, not, ltb, leb, ◌==◌, if◌then◌else◌, is_empty,
}
use royale_ai_platform.Text.{Text, text, text_eq, show}
use royale_ai_platform.Auth.Session.{Storage}
use royale_ai_platform.Sync.ProductSales.{Sales, invalidate_product_sales}

-- What a call of a route comes to: `fetch` or the reading of the body throws, the status is not one
-- of success, or there is a result.
pub data Reply (R : Type 0) : Type 0 where
  rejected : Text → Reply R
  refused : ℕ → Reply R
  answered : R → Reply R

pub record ProductRequest : Type 0 where
  pub pages : ℕ
  pub operation_id : Text

-- `next_page` is `none` where it is missing or null.
pub record ProductResult : Type 0 where
  pub start_page : ℕ
  pub end_page : ℕ
  pub failed : Bool
  pub has_more : Bool
  pub next_page : Option ℕ

pub record OrderItemRequest : Type 0 where
  pub limit : ℕ
  pub after_external_id : Option Text
  pub operation_id : Text

pub record OrderItemResult : Type 0 where
  pub items_created : ℕ
  pub remaining_without_items : ℕ
  pub unknown_products : ℕ
  pub not_found : ℕ
  pub detail_without_items : ℕ
  pub failed : Bool
  pub has_more : Bool
  pub next_cursor : Option Text

pub record Backend (V : Type 0) : Type 0 where
  pub sync_products_batch : ProductRequest → V → Reply ProductResult × V
  pub backfill_order_items : OrderItemRequest → V → Reply OrderItemResult × V
  pub now : V → ℕ

-- `sent` has the ids and the cursors of the requests, the last one first.
pub record World (S V D : Type 0) : Type 0 where
  pub storage : S
  pub server : V
  pub sales : Sales D
  pub messages : List Text
  pub sent : List (Text × Option Text)

-- How a run ends.
pub data End : Type 0 where
  finished : End
  thrown : Text → End

-- What `setItem` of the session storage throws.
abbrev pub quota_message : Text
quota_message = text "QuotaExceededError"

-- What one turn of a loop comes to: the loop is left, or `more` holds, with what it keeps.
pub data Turn (C W : Type 0) : Type 0 where
  ends : End → W → Turn C W
  again : C → W → Turn C W

pub turn_cases :
    {C W : Type 0} (t : Turn C W)
    → ((e : End) × (w : W) × (t ≡ ends e w)) ⊎ ((c : C) × (w : W) × (t ≡ again c w))
turn_cases (ends e w) = inl (e, w, refl)
turn_cases (again c w) = inr (c, w, refl)

-- `while (more)`: the rest of the loop, given what one turn comes to.
abbrev pub after_turn : {C W : Type 0} → Turn C W → (C → W → Option (End × W)) → Option (End × W)
after_turn (ends e w) rest = some (e, w)
after_turn (again c w) rest = rest c w

-- `sessionStorage.getItem(key) ?? crypto.randomUUID()`
abbrev pub operation_or : Text → Option Text → Text
operation_or fresh none = fresh
operation_or fresh (some operation) = operation

module _ {S V D : Type 0} where
  -- The world once the backend has been called.
  abbrev pub called : Text → Option Text → V → World S V D → World S V D
  called operation cursor v w = record {
    storage = w.storage;
    server = v;
    sales = w.sales;
    messages = w.messages;
    sent = (operation, cursor) ∷ w.sent;
  }

  abbrev pub with_storage : S → World S V D → World S V D
  with_storage s w = record {
    storage = s;
    server = w.server;
    sales = w.sales;
    messages = w.messages;
    sent = w.sent;
  }

module _ {S V D : Type 0} (backend : Backend V) where
  -- `progress(message)` and `invalidateProductSales()`
  abbrev pub reported : Text → World S V D → World S V D
  reported message w = record {
    storage = w.storage;
    server = w.server;
    sales = invalidate_product_sales (backend.now w.server) w.sales;
    messages = message ∷ w.messages;
    sent = w.sent;
  }
