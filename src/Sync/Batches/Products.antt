-- ===== src/Sync/Batches/Products.antt =====
-- `runProductBatches` of frontend/src/services/sync-batches.ts.
pub mod Turns
pub mod Ending
pub mod Storing
use royale_ai_platform.Prelude.{
  ℕ, zero, suc, Bool, true, false, Option, none, some, List, [], ◌∷◌, ◌++◌, ◌&&◌, ◌||◌, leb, ◌==◌,
  if◌then◌else◌, is_empty,
}
use royale_ai_platform.Text.{Text, text, text_eq, show}
use royale_ai_platform.Auth.Session.{Storage}
use royale_ai_platform.Sync.Batches.{
  Reply, rejected, refused, answered, ProductRequest, ProductResult, OrderItemRequest,
  OrderItemResult, Backend, World, End, finished, thrown, Turn, ends, again, quota_message,
  after_turn, operation_or, called, with_storage, reported,
}

abbrev pub product_key : Text
product_key = text "bling-product-operation"

-- `!next_page || next_page <= start_page`
abbrev pub is_stuck_page : Option ℕ → ℕ → Bool
is_stuck_page none start = true
is_stuck_page (some next) start = next == 0 || leb next start

abbrev pub product_message : ProductResult → Text
product_message r = text "Produtos: paginas " ++ show r.start_page ++ text "-" ++ show r.end_page

module _ {S V D : Type 0} (backend : Backend V) where
  abbrev pub judge_products : ProductResult → World S V D → Turn Unit (World S V D)
  judge_products r w =
      if r.failed
      then ends (thrown (text "Lote com falhas; checkpoint preservado para retomar")) w
      else (if r.has_more && is_stuck_page r.next_page r.start_page
          then ends (thrown (text "Checkpoint de produtos nao avancou")) w
          else (if r.has_more then again tt w else ends finished w))

  abbrev pub receive_products : Reply ProductResult → World S V D → Turn Unit (World S V D)
  receive_products (rejected message) w = ends (thrown message) w
  receive_products (refused status) w =
      ends (thrown (text "HTTP " ++ show status ++ text "; retome a sincronizacao para continuar"))
        w
  receive_products (answered r) w = judge_products r (reported backend (product_message r) w)

  -- The body of the loop of `runProductBatches`.
  unfoldable pub product_turn : Text → World S V D → Turn Unit (World S V D)
  product_turn operation w =
      let (reply, v) =
        backend.sync_products_batch (record { pages = 5; operation_id = operation }) w.server in
      receive_products reply (called operation none v w)

  -- The loop on fuel, `none` where it runs out.
  unfoldable pub product_loop : ℕ → Text → World S V D → Option (End × World S V D)
  product_loop zero operation w = none
  product_loop (suc fuel) operation w =
      after_turn (product_turn operation w) (λ u w'. product_loop fuel operation w')

module _ {S V D : Type 0} (api : Storage S) (backend : Backend V) where
  abbrev pub product_end : Option (End × World S V D) → Option (End × World S V D)
  product_end none = none
  product_end (some (thrown message, w)) = some (thrown message, w)
  product_end (some (finished, w)) =
      some (finished, with_storage (api.remove_item product_key w.storage) w)

  abbrev pub product_start : ℕ → Text → World S V D → Option S → Option (End × World S V D)
  product_start fuel operation w none = some (thrown quota_message, w)
  product_start fuel operation w (some s) =
      product_end (product_loop backend fuel operation (with_storage s w))

  -- `runProductBatches`, with the id that `crypto.randomUUID()` would give.
  unfoldable pub run_product_batches : ℕ → Text → World S V D → Option (End × World S V D)
  run_product_batches fuel fresh w =
      let operation = operation_or fresh (api.get_item product_key w.storage) in
      product_start fuel operation w (api.set_item product_key operation w.storage)
