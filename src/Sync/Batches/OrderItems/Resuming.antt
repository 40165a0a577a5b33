-- ===== src/Sync/Batches/OrderItems/Resuming.antt =====
-- Where a run of `runOrderItemBatches` goes on after an error.
use royale_ai_platform.Prelude.{
  ℕ, zero, suc, false, Option, none, some, List, ◌∷◌, ◌≡◌, refl, inl, inr, arith, ◌∙◌,
}
use royale_ai_platform.Text.{Text, text_eq, text_eq_refl}
use royale_ai_platform.Auth.Session.{Storage}
use royale_ai_platform.Auth.Session.Laws.{IsStorage}
use royale_ai_platform.Sync.Batches.{
  Backend, World, End, finished, thrown, turn_cases, with_storage, operation_or,
}
use royale_ai_platform.Sync.Batches.OrderItems.{
  cursor_key, owner_key, no_cursor, store_cursor, order_item_turn, order_item_loop, order_item_end,
  run_order_item_batches,
}
use royale_ai_platform.Sync.Batches.OrderItems.Turns.{order_item_turn-again, order_item_turn-ends}

keys_differ : (text_eq owner_key cursor_key ≡ false) × (text_eq cursor_key owner_key ≡ false)
unfolding text_eq
keys_differ = (refl, refl)

module _ {S : Type 0} {api : Storage S} (laws : IsStorage api) where
  get-store_cursor :
      (next : Option Text) (s s' : S)
      → store_cursor api next s ≡ some s'
      → no_cursor next ≡ false
      → (api.get_item cursor_key s' ≡ next) × (api.get_item owner_key s' ≡ api.get_item owner_key s)
  get-store_cursor none s s' put there = absurd (ground arith)
  get-store_cursor (some c) s s' put there =
      let put' : api.set_item cursor_key c s ≡ some s' = rw there at put in
      (
        rw (laws.get-set cursor_key cursor_key c s s' put', text_eq_refl cursor_key) refl,
        rw (laws.get-set cursor_key owner_key c s s' put', keys_differ.1) refl,
      )

  module _ {V D : Type 0} (backend : Backend V) where
    -- The store has the operation and the cursor of the last request.
    pub record IsResumable (operation : Text) (w : World S V D) : Type 0 where
      pub rest : List (Text × Option Text)
      pub last_sent : w.sent ≡ (operation, api.get_item cursor_key w.storage) ∷ rest
      pub owner : api.get_item owner_key w.storage ≡ some operation

    order_item_loop-IsResumable :
        (fuel : ℕ) (operation : Text) (cursor : Option Text) (w w' : World S V D) (m : Text)
        → api.get_item cursor_key w.storage ≡ cursor
        → api.get_item owner_key w.storage ≡ some operation
        → order_item_loop api backend fuel operation cursor w ≡ some (thrown m, w')
        → IsResumable operation w'
    unfolding order_item_loop
    order_item_loop-IsResumable zero operation cursor w w' m at_cursor owned h =
        absurd (ground arith)
    order_item_loop-IsResumable (suc fuel) operation cursor w w' m at_cursor owned h =
        elim (turn_cases (order_item_turn api backend operation cursor w)) [
          | inl (e, v, is) ↦
              let h' : some (e, v) ≡ some (thrown m, w') = rw is at h in
              let e_is : e ≡ thrown m = cc in
              let same : v ≡ w' = cc in
              let (kept, sent) =
                order_item_turn-ends api backend operation cursor w v m (rw e_is at is) in
              rw (← same) (record {
                rest = w.sent;
                last_sent = rw (kept, at_cursor) sent;
                owner = rw kept owned;
              })
          | inr (next, v, is) ↦
              let h' : order_item_loop api backend fuel operation next v ≡ some (thrown m, w') =
                rw is at h in
              let (_, _, _, _, _, _, _, put, there) =
                order_item_turn-again api backend operation cursor next w v is in
              let (at_next, owner) = get-store_cursor next w.storage v.storage put there in
              order_item_loop-IsResumable fuel operation next v w' m at_next (owner ∙ owned) h'
        ]

    order_item_end-thrown :
        (o : Option (End × World S V D)) (w' : World S V D) (m : Text)
        → order_item_end api backend o ≡ some (thrown m, w')
        → o ≡ some (thrown m, w')
    order_item_end-thrown none w' m h = absurd (ground arith)
    order_item_end-thrown (some (finished, v)) w' m h = absurd (ground arith)
    order_item_end-thrown (some (thrown t, v)) w' m h = h

    -- After a run that throws, whose operation could be stored, the store has the operation and the
    -- cursor of the last request that was sent, and the next run goes on from there, whichever id it
    -- would make.
    pub run_order_item_batches-resumes :
        (fuel : ℕ) (fresh : Text) (w w' : World S V D) (m : Text) (s : S)
        → api.set_item owner_key (operation_or fresh (api.get_item owner_key w.storage)) w.storage
          ≡ some s
        → run_order_item_batches api backend fuel fresh w ≡ some (thrown m, w')
        → IsResumable (operation_or fresh (api.get_item owner_key w.storage)) w'
          × ((more : ℕ) (other : Text) (s' : S)
              → api.set_item owner_key
                  (operation_or fresh (api.get_item owner_key w.storage))
                  w'.storage
                ≡ some s'
              → run_order_item_batches api backend more other w'
                ≡ order_item_end api backend (
                    order_item_loop api backend more
                      (operation_or fresh (api.get_item owner_key w.storage))
                      (api.get_item cursor_key w'.storage)
                      (with_storage s' w')))
    unfolding run_order_item_batches
    run_order_item_batches-resumes fuel fresh w w' m s put h =
        let operation = operation_or fresh (api.get_item owner_key w.storage) in
        let cursor = api.get_item cursor_key s in
        let h' : order_item_end api backend
              (order_item_loop api backend fuel operation cursor (with_storage s w))
            ≡ some (thrown m, w') =
          rw put at h in
        let owned : api.get_item owner_key s ≡ some operation =
          rw (laws.get-set owner_key owner_key operation w.storage s put, text_eq_refl owner_key)
            refl in
        let resumable =
          order_item_loop-IsResumable fuel operation cursor (with_storage s w) w' m refl owned
            (order_item_end-thrown _ w' m h') in
        (
          resumable,
          λ more other s' put'.
              let kept : api.get_item cursor_key s' ≡ api.get_item cursor_key w'.storage =
                rw (laws.get-set owner_key cursor_key operation w'.storage s' put', keys_differ.0)
                  refl in
              rw (resumable.owner, put', kept) refl,
        )
