-- ===== src/Sync/Batches/OrderItems/Ending.antt =====
-- That the runs of `runOrderItemBatches` end.
use royale_ai_platform.Prelude.{
  ◌∙◌, ℕ, zero, suc, ◌≤◌, ◌<◌, ◌+◌, true, Option, some, ◌≡◌, false, ◌⊎◌, refl, inl, inr, arith,
  Option-cases,
}
use royale_ai_platform.Text.{Text}
use royale_ai_platform.Auth.Session.{Storage}
use royale_ai_platform.Sync.Batches.{
  answered, OrderItemResult, Backend, World, End, finished, thrown, quota_message, turn_cases,
  with_storage, operation_or,
}
use royale_ai_platform.Sync.Batches.OrderItems.{
  cursor_key, owner_key, order_item_turn, order_item_loop, order_item_end, run_order_item_batches,
}
use royale_ai_platform.Sync.Batches.OrderItems.Turns.{order_item_turn-again}

-- What the backend does for one operation while nothing else moves its checkpoint: `IsGood` is what
-- holds of its states, say of how many orders there are, and `place` is where a batch goes on that is
-- asked for with the cursor, whether that is the cursor of the checkpoint or the one of the request. A
-- batch that did not fail and after which there is more moves that place, up to a last one, or gives
-- the cursor of the request again.
pub record IsAscending {V : Type 0} (backend : Backend V) (operation : Text) (IsGood : V → Type 0)
    (place : Option Text → V → ℕ) (last : ℕ) : Type 0 where
  pub ascends :
      (cursor : Option Text) (v v' : V) (r : OrderItemResult)
      → IsGood v
      → backend.backfill_order_items
          (record { limit = 100; after_external_id = cursor; operation_id = operation })
          v
        ≡ (answered r, v')
      → r.failed ≡ false
      → r.has_more ≡ true
      → ((place cursor v < place r.next_cursor v') ⊎ (r.next_cursor ≡ cursor))
        × (place r.next_cursor v' ≤ last)
        × IsGood v'

module _ {S V D : Type 0} (api : Storage S) (backend : Backend V) where
  order_item_loop-ends :
      (IsGood : V → Type 0) (place : Option Text → V → ℕ) (last fuel : ℕ) (operation : Text)
      (cursor : Option Text) (w : World S V D)
      → IsAscending backend operation IsGood place last
      → IsGood w.server
      → zero < fuel
      → last < fuel + place cursor w.server
      → (e : End) × (w' : World S V D) × (order_item_loop api backend fuel operation cursor w
          ≡ some (e, w'))
  unfolding order_item_loop
  order_item_loop-ends IsGood place last zero operation cursor w h good some_fuel enough =
      absurd (omega arith)
  order_item_loop-ends IsGood place last (suc fuel) operation cursor w h good some_fuel enough =
      elim (turn_cases (order_item_turn api backend operation cursor w)) [
        | inl (e, w', is) ↦ (e, w', rw is refl)
        | inr (next, w', is) ↦
            let (r, answer, more, ok, n, differs, _, _, _) =
              order_item_turn-again api backend operation cursor next w w' is in
            let (up, bounded, good') = h.ascends cursor _ _ r good answer ok more in
            let higher : place cursor w.server < place next w'.server = elim up [
              | inl higher ↦ rw n higher
              | inr same ↦ absurd (differs (n ∙ same))
            ] in
            let bounded' : place next w'.server ≤ last = rw n bounded in
            let (e, w'', rest) =
              order_item_loop-ends IsGood place last fuel operation next w' h good' (omega arith)
                (omega arith) in
            (e, w'', rw is rest)
      ]

  ended :
      (e : End) (v : World S V D) (o : Option (End × World S V D))
      → o ≡ some (e, v)
      → (w' : World S V D) × (order_item_end api backend o ≡ some (e, w'))
  ended finished v o is = (
    with_storage (api.remove_item owner_key (api.remove_item cursor_key v.storage)) v,
    rw is refl,
  )
  ended (thrown message) v o is = (v, rw is refl)

  -- If the batches that the backend runs for the operation move on, up to a last place, unless they
  -- give the same cursor again, from a state in which that holds, then a run ends: more rounds than
  -- that place are enough.
  pub run_order_item_batches_ends :
      (IsGood : V → Type 0) (place : Option Text → V → ℕ) (last fuel : ℕ) (fresh : Text)
      (w : World S V D)
      → IsAscending backend
          (operation_or fresh (api.get_item owner_key w.storage))
          IsGood
          place
          last
      → IsGood w.server
      → last < fuel
      → (e : End) × (w' : World S V D) × (run_order_item_batches api backend fuel fresh w
          ≡ some (e, w'))
  unfolding run_order_item_batches
  run_order_item_batches_ends IsGood place last fuel fresh w h good enough =
      let operation = operation_or fresh (api.get_item owner_key w.storage) in
      elim (Option-cases (api.set_item owner_key operation w.storage)) [
        | inl full ↦ (thrown quota_message, w, rw full refl)
        | inr (s, put) ↦
            let cursor = api.get_item cursor_key s in
            let (e, w', is) =
              order_item_loop-ends IsGood place last fuel operation cursor (with_storage s w) h good
                (omega arith) (omega arith) in
            let (w'', is') = ended e w' _ is in (e, w'', rw put is')
      ]
