-- ===== src/Sync/Batches/OrderItems.antt =====
-- `runOrderItemBatches` of frontend/src/services/sync-batches.ts.
pub mod Turns
pub mod Ending
pub mod Resuming
use royale_ai_platform.Prelude.{
  ℕ, zero, suc, Bool, true, false, Option, none, some, List, [], ◌∷◌, ◌++◌, ◌&&◌, ◌||◌, leb, ◌==◌,
  if◌then◌else◌, is_empty,
}
use royale_ai_platform.Text.{Text, text, text_eq, show}
use royale_ai_platform.Auth.Session.{Storage}
use royale_ai_platform.Sync.Batches.{
  Reply, rejected, refused, answered, ProductRequest, ProductResult, OrderItemRequest,
  OrderItemResult, Backend, World, End, finished, thrown, Turn, ends, again, quota_message,
  after_turn, operation_or, called, with_storage, reported,
}

abbrev pub cursor_key : Text
cursor_key = text "bling-order-items-cursor"

abbrev pub owner_key : Text
owner_key = text "bling-order-items-operation"

-- `===` on cursors
abbrev pub same_cursor : Option Text → Option Text → Bool
same_cursor none none = true
same_cursor (some a) (some b) = text_eq a b
same_cursor _ _ = false

-- `!next_cursor`
abbrev pub no_cursor : Option Text → Bool
no_cursor none = true
no_cursor (some c) = is_empty c

abbrev pub order_item_message : OrderItemResult → Text
order_item_message r =
    text "Itens: "
    ++ show r.items_created
    ++ text " criados; "
    ++ show r.remaining_without_items
    ++ text " pedidos sem itens; "
    ++ show r.unknown_products
    ++ text " produtos desconhecidos; "
    ++ show r.not_found
    ++ text " ausentes; "
    ++ show r.detail_without_items
    ++ text " detalhes vazios"

module _ {S : Type 0} (api : Storage S) where
  -- `if (cursor) sessionStorage.setItem(key, cursor)`
  abbrev pub store_cursor : Option Text → S → Option S
  store_cursor none s = some s
  store_cursor (some c) s = if is_empty c then some s else api.set_item cursor_key c s

module _ {S V D : Type 0} (api : Storage S) (backend : Backend V) where
  abbrev pub go_on : Bool → Option Text → World S V D → Option S → Turn (Option Text) (World S V D)
  go_on more cursor w none = ends (thrown quota_message) w
  go_on more cursor w (some s) =
      if more then again cursor (with_storage s w) else ends finished (with_storage s w)

  abbrev pub judge_order_items :
      Option Text → OrderItemResult → World S V D → Turn (Option Text) (World S V D)
  judge_order_items cursor r w =
      if r.failed
      then ends (thrown (text "Falha em pedidos; retome para tentar o mesmo lote")) w
      else (if r.has_more && (no_cursor r.next_cursor || same_cursor r.next_cursor cursor)
          then ends (thrown (text "Cursor nao avancou")) w
          else go_on r.has_more r.next_cursor w (store_cursor api r.next_cursor w.storage))

  abbrev pub receive_order_items :
      Option Text → Reply OrderItemResult → World S V D → Turn (Option Text) (World S V D)
  receive_order_items cursor (rejected message) w = ends (thrown message) w
  receive_order_items cursor (refused status) w =
      ends (thrown (text "HTTP " ++ show status ++ text "; cursor preservado")) w
  receive_order_items cursor (answered r) w =
      judge_order_items cursor r (reported backend (order_item_message r) w)

  -- The body of the loop of `runOrderItemBatches`.
  unfoldable pub order_item_turn :
      Text → Option Text → World S V D → Turn (Option Text) (World S V D)
  order_item_turn operation cursor w =
      let request : OrderItemRequest = record {
        limit = 100;
        after_external_id = cursor;
        operation_id = operation;
      } in
      let (reply, v) = backend.backfill_order_items request w.server in
      receive_order_items cursor reply (called operation cursor v w)

  unfoldable pub order_item_loop : ℕ → Text → Option Text → World S V D → Option (End × World S V D)
  order_item_loop zero operation cursor w = none
  order_item_loop (suc fuel) operation cursor w =
      after_turn (order_item_turn operation cursor w)
        (λ next w'. order_item_loop fuel operation next w')

  abbrev pub order_item_end : Option (End × World S V D) → Option (End × World S V D)
  order_item_end none = none
  order_item_end (some (thrown message, w)) = some (thrown message, w)
  order_item_end (some (finished, w)) =
      some (
        finished,
        with_storage (api.remove_item owner_key (api.remove_item cursor_key w.storage)) w,
      )

  abbrev pub order_item_start : ℕ → Text → World S V D → Option S → Option (End × World S V D)
  order_item_start fuel operation w none = some (thrown quota_message, w)
  order_item_start fuel operation w (some s) =
      order_item_end (order_item_loop fuel operation (api.get_item cursor_key s) (with_storage s w))

  -- `runOrderItemBatches`, with the id that `crypto.randomUUID()` would give.
  unfoldable pub run_order_item_batches : ℕ → Text → World S V D → Option (End × World S V D)
  run_order_item_batches fuel fresh w =
      let operation = operation_or fresh (api.get_item owner_key w.storage) in
      order_item_start fuel operation w (api.set_item owner_key operation w.storage)
