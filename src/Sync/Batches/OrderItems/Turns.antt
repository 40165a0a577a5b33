-- ===== src/Sync/Batches/OrderItems/Turns.antt =====
-- What one turn of the loop of `runOrderItemBatches` keeps.
use royale_ai_platform.Prelude.{
  Bool, true, false, Option, none, some, ◌∷◌, ◌≡◌, refl, sym, ◌≢◌, inl, inr, arith, Bool-cases,
  ◌&&◌, ◌||◌, ◌∙◌, ◌↔◌,
}
use royale_ai_platform.Text.{Text, text_eq_iff}
use royale_ai_platform.Auth.Session.{Storage}
use royale_ai_platform.Sync.Batches.{
  Reply, rejected, refused, answered, OrderItemRequest, OrderItemResult, Backend, World, thrown,
  ends, again, with_storage, called, reported,
}
use royale_ai_platform.Sync.Batches.OrderItems.{
  same_cursor, no_cursor, order_item_message, store_cursor, go_on, judge_order_items,
  receive_order_items, order_item_turn,
}

same_cursor_iff : (a b : Option Text) → (same_cursor a b ≡ true) ↔ (a ≡ b)
same_cursor_iff none none = (λ _. refl, λ _. refl)
same_cursor_iff none (some b) = (λ h. cc, λ h. cc)
same_cursor_iff (some a) none = (λ h. cc, λ h. cc)
same_cursor_iff (some a) (some b) = ground (arith, text_eq_iff a b)

moves :
    (more gone same : Bool)
    → more && (gone || same) ≡ false
    → more ≡ true
    → (gone ≡ false) × (same ≡ false)
moves true false false h m = (refl, refl)
moves true false true h m = absurd (ground arith)
moves true true same h m = absurd (ground arith)
moves false gone same h m = absurd (ground arith)

module _ {S V D : Type 0} (api : Storage S) (backend : Backend V) where
  go_on-again :
      (more : Bool) (cursor next : Option Text) (w w' : World S V D) (o : Option S)
      → go_on api backend more cursor w o ≡ again next w'
      → (more ≡ true)
        × (next ≡ cursor)
        × (w'.server ≡ w.server)
        × (w'.sent ≡ w.sent)
        × (o ≡ some w'.storage)
  go_on-again more cursor next w w' none e = absurd (ground arith)
  go_on-again false cursor next w w' (some s) e = absurd (ground arith)
  go_on-again true cursor next w w' (some s) e =
      let same : with_storage s w ≡ w' = ground arith in
      let n : next ≡ cursor = ground arith in rw (← same) (refl, n, refl, refl, refl)

  judge_order_items-again :
      (cursor next : Option Text) (r : OrderItemResult) (w w' : World S V D)
      → judge_order_items api backend cursor r w ≡ again next w'
      → (r.has_more ≡ true)
        × (r.failed ≡ false)
        × (next ≡ r.next_cursor)
        × (next ≢ cursor)
        × (w'.server ≡ w.server)
        × (w'.sent ≡ w.sent)
        × (store_cursor api next w.storage ≡ some w'.storage)
        × (no_cursor next ≡ false)
  judge_order_items-again cursor next r w w' e = elim (Bool-cases r.failed) [
    | inl failed ↦ absurd (let e' = rw failed at e in ground arith)
    | inr ok ↦
        elim (Bool-cases
          (r.has_more && (no_cursor r.next_cursor || same_cursor r.next_cursor cursor))) [
            | inl stuck ↦ absurd (let e' = rw (ok, stuck) at e in ground arith)
            | inr moved ↦
                let e' : go_on api backend r.has_more r.next_cursor w
                      (store_cursor api r.next_cursor w.storage)
                    ≡ again next w' =
                  rw (ok, moved) at e in
                let (more, n, sv, se, st) = go_on-again r.has_more r.next_cursor next w w' _ e' in
                let (there, other) =
                  moves r.has_more (no_cursor r.next_cursor) (same_cursor r.next_cursor cursor)
                    moved more in
                (
                  more,
                  ok,
                  n,
                  λ same.
                      absurd
                        (let k = (same_cursor_iff r.next_cursor cursor).1 (sym n ∙ same) in cc),
                  sv,
                  se,
                  rw n st,
                  rw n there,
                )
          ]
  ]

  receive_order_items-again :
      (cursor next : Option Text) (reply : Reply OrderItemResult) (w w' : World S V D)
      → receive_order_items api backend cursor reply w ≡ again next w'
      → (r : OrderItemResult) × (reply ≡ answered r)
        × (r.has_more ≡ true)
        × (r.failed ≡ false)
        × (next ≡ r.next_cursor)
        × (next ≢ cursor)
        × (w'.server ≡ w.server)
        × (w'.sent ≡ w.sent)
        × (store_cursor api next w.storage ≡ some w'.storage)
        × (no_cursor next ≡ false)
  receive_order_items-again cursor next (rejected m) w w' e = absurd (ground arith)
  receive_order_items-again cursor next (refused status) w w' e = absurd (ground arith)
  receive_order_items-again cursor next (answered r) w w' e =
      let (more, ok, n, differs, sv, se, st, there) =
        judge_order_items-again cursor next r _ w' e in
      (r, refl, more, ok, n, differs, sv, se, st, there)

  pub order_item_turn-again :
      (operation : Text) (cursor next : Option Text) (w w' : World S V D)
      → order_item_turn api backend operation cursor w ≡ again next w'
      → (r : OrderItemResult) × (backend.backfill_order_items
            (record { limit = 100; after_external_id = cursor; operation_id = operation })
            w.server
          ≡ (answered r, w'.server))
        × (r.has_more ≡ true)
        × (r.failed ≡ false)
        × (next ≡ r.next_cursor)
        × (next ≢ cursor)
        × (w'.sent ≡ (operation, cursor) ∷ w.sent)
        × (store_cursor api next w.storage ≡ some w'.storage)
        × (no_cursor next ≡ false)
  unfolding order_item_turn
  order_item_turn-again operation cursor next w w' e =
      let request : OrderItemRequest = record {
        limit = 100;
        after_external_id = cursor;
        operation_id = operation;
      } in
      let (reply, v) = backend.backfill_order_items request w.server in
      let (r, is_r, more, ok, n, differs, sv, se, st, there) =
        receive_order_items-again cursor next reply (called operation cursor v w) w' e in
      (r, rw (sv, is_r) refl, more, ok, n, differs, se, st, there)

  go_on-ends :
      (more : Bool) (cursor : Option Text) (w w' : World S V D) (o : Option S) (m : Text)
      → go_on api backend more cursor w o ≡ ends (thrown m) w'
      → w' ≡ w
  go_on-ends more cursor w w' none m e = ground arith
  go_on-ends true cursor w w' (some s) m e = absurd (ground arith)
  go_on-ends false cursor w w' (some s) m e = absurd (ground arith)

  judge_order_items-ends :
      (cursor : Option Text) (r : OrderItemResult) (w w' : World S V D) (m : Text)
      → judge_order_items api backend cursor r w ≡ ends (thrown m) w'
      → w' ≡ w
  judge_order_items-ends cursor r w w' m e = elim (Bool-cases r.failed) [
    | inl failed ↦ let e' = rw failed at e in ground arith
    | inr ok ↦
        elim (Bool-cases
          (r.has_more && (no_cursor r.next_cursor || same_cursor r.next_cursor cursor))) [
            | inl stuck ↦ let e' = rw (ok, stuck) at e in ground arith
            | inr moved ↦ go_on-ends r.has_more r.next_cursor w w' _ m (rw (ok, moved) at e)
          ]
  ]

  receive_order_items-ends :
      (cursor : Option Text) (reply : Reply OrderItemResult) (w w' : World S V D) (m : Text)
      → receive_order_items api backend cursor reply w ≡ ends (thrown m) w'
      → (w'.storage ≡ w.storage) × (w'.sent ≡ w.sent)
  receive_order_items-ends cursor (rejected t) w w' m e =
      let same : w' ≡ w = ground arith in rw same (refl, refl)
  receive_order_items-ends cursor (refused status) w w' m e =
      let same : w' ≡ w = ground arith in rw same (refl, refl)
  receive_order_items-ends cursor (answered r) w w' m e =
      let v = reported backend (order_item_message r) w in
      let same : w' ≡ v = judge_order_items-ends cursor r v w' m e in rw same (refl, refl)

  pub order_item_turn-ends :
      (operation : Text) (cursor : Option Text) (w w' : World S V D) (m : Text)
      → order_item_turn api backend operation cursor w ≡ ends (thrown m) w'
      → (w'.storage ≡ w.storage) × (w'.sent ≡ (operation, cursor) ∷ w.sent)
  unfolding order_item_turn
  order_item_turn-ends operation cursor w w' m e =
      let request : OrderItemRequest = record {
        limit = 100;
        after_external_id = cursor;
        operation_id = operation;
      } in
      let (reply, v) = backend.backfill_order_items request w.server in
      receive_order_items-ends cursor reply (called operation cursor v w) w' m e
