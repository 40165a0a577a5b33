-- ===== src/Sync/Tests/Erp.antt =====
-- An example of a backend with the checkpoints of backend/modules/integration/checkpoint.py: an
-- operation owns a checkpoint until it is completed, a completed one is given out again to its owner
-- and begun anew by another, and the cursor of the checkpoint goes before that of the request. The
-- time in which an operation owns a checkpoint does not run out here.
use royale_ai_platform.Prelude.{
  ℕ, ◌+◌, ◌<◌, ◌≤◌, Bool, true, false, Option, none, some, [], ◌≡◌, refl, ◌⊎◌, inl, inr, not, arith,
  ltb, if◌then◌else◌, Bool-cases,
}
use royale_ai_platform.Text.{Text, text, text_eq, show, digits_value, digits_value-show}
use royale_ai_platform.Auth.Session.{MemoryStore, memory_storage}
use royale_ai_platform.Sync.Batches.{
  Reply, answered, refused, ProductResult, OrderItemResult, Backend, World, End,
}
use royale_ai_platform.Sync.Batches.Products.{run_product_batches}
use royale_ai_platform.Sync.Batches.Products.Ending.{IsCheckpointed, run_product_batches_ends}
use royale_ai_platform.Sync.Batches.OrderItems.{run_order_item_batches}
use royale_ai_platform.Sync.Batches.OrderItems.Ending.{IsAscending, run_order_item_batches_ends}
use royale_ai_platform.Sync.Tests.{empty_sales}

abbrev product_page : ℕ → ProductResult
product_page v = record {
  start_page = v;
  end_page = v + 4;
  failed = false;
  has_more = ltb (v + 4) 12;
  next_page = some (v + 5);
}

abbrev cursor_value : Option Text → ℕ
cursor_value none = 0
cursor_value (some c) = digits_value 0 c

abbrev order_page : ℕ → OrderItemResult
order_page c = record {
  items_created = 100;
  remaining_without_items = 0;
  unknown_products = 0;
  not_found = 0;
  detail_without_items = 0;
  failed = false;
  has_more = ltb (c + 100) 300;
  next_cursor = some (show (c + 100));
}

-- The two checkpoints; `cursor` is `none` where the totals have none.
record Erp : Type 0 where
  page : ℕ
  products_completed : Bool
  products_owner : Text
  cursor : Option Text
  orders_completed : Bool
  orders_owner : Text

-- Twelve pages, five in a batch.
abbrev product_batch : Text → ℕ → Erp → Reply ProductResult × Erp
product_batch operation start v = (
  answered (product_page start),
  record v {
    page = start + 5;
    products_completed = not (ltb (start + 4) 12);
    products_owner = operation;
  },
)

abbrev completed_products : Erp → ProductResult
completed_products v = record {
  start_page = v.page;
  end_page = v.page;
  failed = false;
  has_more = false;
  next_page = none;
}

abbrev claim_products : Text → Erp → Reply ProductResult × Erp
claim_products operation v =
    if v.products_completed
    then (if text_eq v.products_owner operation
        then (answered (completed_products v), v)
        else product_batch operation 1 v)
    else (if text_eq v.products_owner operation
        then product_batch operation v.page v
        else (refused 409, v))

abbrev first_some : Option Text → Option Text → Option Text
first_some (some c) other = some c
first_some none other = other

-- Three hundred orders, a hundred in a batch, by the numbers of the cursors.
abbrev order_batch : Text → ℕ → Erp → Reply OrderItemResult × Erp
order_batch operation c v = (
  answered (order_page c),
  record v {
    cursor = some (show (c + 100));
    orders_completed = not (ltb (c + 100) 300);
    orders_owner = operation;
  },
)

abbrev claim_orders : Text → Option Text → Erp → Reply OrderItemResult × Erp
claim_orders operation asked v =
    if v.orders_completed
    then (if text_eq v.orders_owner operation
        then (answered (order_page 300), v)
        else order_batch operation (cursor_value asked) v)
    else (if text_eq v.orders_owner operation
        then order_batch operation (cursor_value (first_some v.cursor asked)) v
        else (refused 409, v))

abbrev erp : Backend Erp
erp = record {
  sync_products_batch = λ req v. claim_products req.operation_id v;
  backfill_order_items = λ req v. claim_orders req.operation_id req.after_external_id v;
  now = λ v. 1000;
}

abbrev page_of : Erp → ℕ
page_of v = if v.products_completed then 1 else v.page

abbrev IsAny : Erp → Type 0
IsAny v = Unit

product_batch-advances :
    (operation : Text) (start : ℕ) (v v' : Erp) (r : ProductResult) (next : ℕ)
    → product_batch operation start v ≡ (answered r, v')
    → r.has_more ≡ true
    → r.next_page ≡ some next
    → (r.start_page ≡ start) × (page_of v' ≡ next) × (next ≤ 17) × IsAny v'
product_batch-advances operation start v v' r next e more is =
    let is_r : product_page start ≡ r = cc in
    let is_v : (product_batch operation start v).1 ≡ v' = cc in
    let more' : ltb (start + 4) 12 ≡ true = rw (← is_r) at more in
    let is' : some (start + 5) ≡ some next = rw (← is_r) at is in
    let next_is : start + 5 ≡ next = cc in
    (rw (← is_r) refl, rw (← is_v, more') next_is, ground arith, tt)

erp-IsCheckpointed : (operation : Text) → IsCheckpointed erp operation IsAny page_of 17
erp-IsCheckpointed operation = record {
  advances = λ v v' r next good e more is. elim (Bool-cases v.products_completed) [
    | inl done ↦ elim (Bool-cases (text_eq v.products_owner operation)) [
      | inl own ↦ absurd (let e' = rw (done, own) at e in ground arith)
      | inr other ↦
          let e' : product_batch operation 1 v ≡ (answered r, v') = rw (done, other) at e in
          rw done (product_batch-advances operation 1 v v' r next e' more is)
    ]
    | inr running ↦ elim (Bool-cases (text_eq v.products_owner operation)) [
      | inl own ↦
          let e' : product_batch operation v.page v ≡ (answered r, v') = rw (running, own) at e in
          rw running (product_batch-advances operation v.page v v' r next e' more is)
      | inr other ↦ absurd (let e' = rw (running, other) at e in ground arith)
    ]
  ];
}

abbrev place_of : Option Text → Erp → ℕ
place_of asked v =
    if v.orders_completed then cursor_value asked else cursor_value (first_some v.cursor asked)

order_batch-ascends :
    (operation : Text) (c : ℕ) (cursor : Option Text) (v v' : Erp) (r : OrderItemResult)
    → order_batch operation c v ≡ (answered r, v')
    → r.has_more ≡ true
    → ((c < place_of r.next_cursor v') ⊎ (r.next_cursor ≡ cursor))
      × (place_of r.next_cursor v' ≤ 400)
      × IsAny v'
order_batch-ascends operation c cursor v v' r e more =
    let is_r : order_page c ≡ r = cc in
    let is_v : (order_batch operation c v).1 ≡ v' = cc in
    let more' : ltb (c + 100) 300 ≡ true = rw (← is_r) at more in
    let value = digits_value-show (c + 100) in
    let below : c + 100 < 300 = ground arith in
    let place : place_of r.next_cursor v' ≡ c + 100 = rw (← is_r, ← is_v, more') value in
    (inl (omega arith), omega arith, tt)

erp-IsAscending : (operation : Text) → IsAscending erp operation IsAny place_of 400
erp-IsAscending operation = record {
  ascends = λ cursor v v' r good e ok more. elim (Bool-cases v.orders_completed) [
    | inl done ↦ elim (Bool-cases (text_eq v.orders_owner operation)) [
      | inl own ↦ absurd (let e' = rw (done, own) at e in ground arith)
      | inr other ↦
          let e' : order_batch operation (cursor_value cursor) v ≡ (answered r, v') =
            rw (done, other) at e in
          rw done (order_batch-ascends operation (cursor_value cursor) cursor v v' r e' more)
    ]
    | inr running ↦ elim (Bool-cases (text_eq v.orders_owner operation)) [
      | inl own ↦
          let e' : order_batch operation (cursor_value (first_some v.cursor cursor)) v
              ≡ (answered r, v') =
            rw (running, own) at e in
          rw running (
            order_batch-ascends operation (cursor_value (first_some v.cursor cursor)) cursor v v' r
              e' more)
      | inr other ↦ absurd (let e' = rw (running, other) at e in ground arith)
    ]
  ];
}

-- Another operation has been completed.
abbrev start : World MemoryStore Erp ℕ
start = record {
  storage = [];
  server = record {
    page = 11;
    products_completed = true;
    products_owner = text "op-0";
    cursor = some (text "300");
    orders_completed = true;
    orders_owner = text "op-0";
  };
  sales = empty_sales;
  messages = [];
  sent = [];
}

run_product_batches_ends_example :
    (e : End) × (w' : World MemoryStore Erp ℕ) × (run_product_batches memory_storage erp 18
        (text "op-1")
        start
      ≡ some (e, w'))
run_product_batches_ends_example =
    run_product_batches_ends memory_storage erp IsAny page_of 17 18 (text "op-1") start
      (erp-IsCheckpointed _) tt (omega arith)

run_order_item_batches_ends_example :
    (e : End) × (w' : World MemoryStore Erp ℕ) × (run_order_item_batches memory_storage erp 401
        (text "op-1")
        start
      ≡ some (e, w'))
run_order_item_batches_ends_example =
    run_order_item_batches_ends memory_storage erp IsAny place_of 400 401 (text "op-1") start
      (erp-IsAscending _) tt (omega arith)
