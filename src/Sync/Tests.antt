-- ===== src/Sync/Tests.antt =====
-- Runs of the synchronisation at examples.
mod Central
mod Erp
use royale_ai_platform.Prelude.{
  ℕ, ◌+◌, ◌<◌, ◌≤◌, Bool, true, false, Option, none, some, List, [], ◌∷◌, ◌≡◌, refl, sym, ◌∙◌,
  arith, ltb, if◌then◌else◌,
}
use royale_ai_platform.Text.{Text, text, show, show_fuel, digits_value, digits_value-show, text_eq}
use royale_ai_platform.Auth.Session.{MemoryStore, memory_storage, map_get, map_set}
use royale_ai_platform.Auth.Session.Laws.{memory_storage-IsStorage}
use royale_ai_platform.Sync.ProductSales.{
  Period, days7, Sales, same_revision, begin_fetch, end_fetch, invalidate_product_sales,
}
use royale_ai_platform.Sync.ProductSales.Revision.{
  Finish, finish_all, begin-invalidated, begin-end_fetch,
}
use royale_ai_platform.Sync.Batches.{
  Reply, answered, refused, ProductRequest, ProductResult, OrderItemRequest, OrderItemResult,
  Backend, World, operation_or, with_storage, End, finished, thrown,
}
use royale_ai_platform.Sync.Batches.Products.{
  product_key, run_product_batches, product_turn, product_loop,
}
use royale_ai_platform.Sync.Batches.Products.Storing.{run_product_batches-storage}
use royale_ai_platform.Sync.Batches.OrderItems.{
  cursor_key, owner_key, run_order_item_batches, order_item_loop, order_item_turn, order_item_end,
}
use royale_ai_platform.Sync.Batches.OrderItems.Resuming.{
  IsResumable, run_order_item_batches-resumes,
}

abbrev pub empty_sales : Sales ℕ
empty_sales = record { cache = []; stored = none; events = [] }

abbrev start : World MemoryStore ℕ ℕ
start = record { storage = []; server = 1; sales = empty_sales; messages = []; sent = [] }

-- A backend that refuses every call.
abbrev down : Backend ℕ
down = record {
  sync_products_batch = λ req v. (refused 503, v);
  backfill_order_items = λ req v. (refused 503, v);
  now = λ v. 1000;
}

abbrev after_products : World MemoryStore ℕ ℕ
after_products = record {
  storage = (product_key, text "op-1") ∷ [];
  server = 1;
  sales = empty_sales;
  messages = [];
  sent = (text "op-1", none) ∷ [];
}

products_refused :
    run_product_batches memory_storage down 3 (text "op-1") start
    ≡ some (thrown (text "HTTP 503; retome a sincronizacao para continuar"), after_products)
unfolding run_product_batches product_loop product_turn text_eq show show_fuel map_get map_set
products_refused = refl

product_key_stored :
    memory_storage.set_item product_key
      (operation_or (text "op-1") (memory_storage.get_item product_key []))
      []
    ≡ some ((product_key, text "op-1") ∷ [])
unfolding map_get map_set
product_key_stored = refl

run_product_batches-storage_example :
    ((j : Text)
      → map_get j after_products.storage
        ≡ (if text_eq product_key j then some (text "op-1") else map_get j []))
    × ((message : Text) (more : ℕ) (other : Text)
        → thrown (text "HTTP 503; retome a sincronizacao para continuar") ≡ thrown message
        → run_product_batches memory_storage down more other after_products
          ≡ run_product_batches memory_storage down more (text "op-1") after_products)
unfolding map_get
run_product_batches-storage_example =
    run_product_batches-storage memory_storage-IsStorage down 3 (text "op-1") start after_products
      (thrown (text "HTTP 503; retome a sincronizacao para continuar"))
      ((product_key, text "op-1") ∷ []) product_key_stored products_refused

abbrev after_orders : World MemoryStore ℕ ℕ
after_orders = record {
  storage = (owner_key, text "op-1") ∷ [];
  server = 1;
  sales = empty_sales;
  messages = [];
  sent = (text "op-1", none) ∷ [];
}

orders_refused :
    run_order_item_batches memory_storage down 3 (text "op-1") start
    ≡ some (thrown (text "HTTP 503; cursor preservado"), after_orders)
unfolding run_order_item_batches order_item_loop order_item_turn text_eq show show_fuel map_get
    map_set
orders_refused = refl

owner_key_stored :
    memory_storage.set_item owner_key
      (operation_or (text "op-1") (memory_storage.get_item owner_key []))
      []
    ≡ some ((owner_key, text "op-1") ∷ [])
unfolding map_get map_set
owner_key_stored = refl

run_order_item_batches-resumes_example :
    IsResumable memory_storage-IsStorage down (text "op-1") after_orders
    × ((more : ℕ) (other : Text) (s : MemoryStore)
        → some (map_set owner_key (text "op-1") after_orders.storage) ≡ some s
        → run_order_item_batches memory_storage down more other after_orders
          ≡ order_item_end memory_storage down (
              order_item_loop memory_storage down more
                (text "op-1")
                (map_get cursor_key after_orders.storage)
                (with_storage s after_orders)))
unfolding map_get
run_order_item_batches-resumes_example =
    run_order_item_batches-resumes memory_storage-IsStorage down 3 (text "op-1") start after_orders
      (text "HTTP 503; cursor preservado") ((owner_key, text "op-1") ∷ []) owner_key_stored
      orders_refused

-- A call that began before any revision was stored and finishes after it was.
abbrev late_finish : Finish ℕ
late_finish = record { period = days7; revision = none; at = 1500; received = 7 }

begin-invalidated_example :
    begin_fetch days7 false 1600
      (finish_all (late_finish ∷ []) (invalidate_product_sales 1000 empty_sales))
    ≡ none
begin-invalidated_example =
    begin-invalidated 1000 (late_finish ∷ []) empty_sales days7 false 1600 ((λ e. cc), tt)
