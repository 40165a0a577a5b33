-- ===== src/Sync/Batches/Products/Ending.antt =====
-- That the runs of `runProductBatches` end.
use royale_ai_platform.Prelude.{
  ℕ, zero, suc, ◌≤◌, ◌<◌, ◌+◌, true, Option, some, ◌≡◌, refl, inl, inr, arith, Option-cases,
}
use royale_ai_platform.Text.{Text}
use royale_ai_platform.Auth.Session.{Storage}
use royale_ai_platform.Sync.Batches.{
  answered, ProductResult, Backend, World, End, finished, thrown, quota_message, turn_cases,
  with_storage, operation_or,
}
use royale_ai_platform.Sync.Batches.Products.{
  product_key, product_turn, product_loop, product_end, run_product_batches,
}
use royale_ai_platform.Sync.Batches.Products.Turns.{product_turn-again}

-- What the backend does for one operation while nothing else moves its checkpoint: `IsGood` is what
-- holds of its states, say of how many pages there are, and `page` is where the next batch of the
-- operation starts. A batch after which there is more starts there, names the page that the next one
-- starts at, and that page is not past a last one. A batch without more may start anywhere.
pub record IsCheckpointed {V : Type 0} (backend : Backend V) (operation : Text)
    (IsGood : V → Type 0) (page : V → ℕ) (last : ℕ) : Type 0 where
  pub advances :
      (v v' : V) (r : ProductResult) (next : ℕ)
      → IsGood v
      → backend.sync_products_batch (record { pages = 5; operation_id = operation }) v
        ≡ (answered r, v')
      → r.has_more ≡ true
      → r.next_page ≡ some next
      → (r.start_page ≡ page v) × (page v' ≡ next) × (next ≤ last) × IsGood v'

module _ {S V D : Type 0} (backend : Backend V) where
  product_loop-ends :
      (IsGood : V → Type 0) (page : V → ℕ) (last fuel : ℕ) (operation : Text) (w : World S V D)
      → IsCheckpointed backend operation IsGood page last
      → IsGood w.server
      → zero < fuel
      → last < fuel + page w.server
      → (e : End) × (w' : World S V D) × (product_loop backend fuel operation w ≡ some (e, w'))
  unfolding product_loop
  product_loop-ends IsGood page last zero operation w h good some_fuel enough = absurd (omega arith)
  product_loop-ends IsGood page last (suc fuel) operation w h good some_fuel enough =
      elim (turn_cases (product_turn backend operation w)) [
        | inl (e, w', is) ↦ (e, w', rw is refl)
        | inr (u, w', is) ↦
            let (r, answer, more, _, n, next, less) =
              product_turn-again backend operation w w' u is in
            let (starts, moved, bounded, good') = h.advances _ _ r n good answer more next in
            let (e, w'', rest) =
              product_loop-ends IsGood page last fuel operation w' h good' (omega arith)
                (omega arith) in
            (e, w'', rw is rest)
      ]

module _ {S V D : Type 0} (api : Storage S) (backend : Backend V) where
  ended :
      (e : End) (v : World S V D) (o : Option (End × World S V D))
      → o ≡ some (e, v)
      → (w' : World S V D) × (product_end api backend o ≡ some (e, w'))
  ended finished v o is = (with_storage (api.remove_item product_key v.storage) v, rw is refl)
  ended (thrown message) v o is = (v, rw is refl)

  -- If the batches that the backend runs for the operation start at a checkpoint that it moves to the
  -- page it names, up to a last page, from a state in which that holds, then a run ends: more rounds
  -- than that page are enough.
  pub run_product_batches_ends :
      (IsGood : V → Type 0) (page : V → ℕ) (last fuel : ℕ) (fresh : Text) (w : World S V D)
      → IsCheckpointed backend
          (operation_or fresh (api.get_item product_key w.storage))
          IsGood
          page
          last
      → IsGood w.server
      → last < fuel
      → (e : End) × (w' : World S V D) × (run_product_batches api backend fuel fresh w
          ≡ some (e, w'))
  unfolding run_product_batches
  run_product_batches_ends IsGood page last fuel fresh w h good enough =
      let operation = operation_or fresh (api.get_item product_key w.storage) in
      elim (Option-cases (api.set_item product_key operation w.storage)) [
        | inl full ↦ (thrown quota_message, w, rw full refl)
        | inr (s, put) ↦
            let (e, w', is) =
              product_loop-ends backend IsGood page last fuel operation (with_storage s w) h good
                (omega arith) (omega arith) in
            let (w'', is') = ended e w' _ is in (e, w'', rw put is')
      ]
