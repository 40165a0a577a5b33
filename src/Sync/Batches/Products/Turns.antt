-- ===== src/Sync/Batches/Products/Turns.antt =====
-- What one turn of the loop of `runProductBatches` keeps.
use royale_ai_platform.Prelude.{ℕ, ◌<◌, true, none, some, ◌≡◌, refl, inl, inr, arith, Option-cases}
use royale_ai_platform.Text.{Text}
use royale_ai_platform.Sync.Batches.{
  Reply, rejected, refused, answered, ProductRequest, ProductResult, Backend, World, End, ends,
  again, called,
}
use royale_ai_platform.Sync.Batches.Products.{judge_products, receive_products, product_turn}

module _ {S V D : Type 0} (backend : Backend V) where
  judge_products-again :
      (r : ProductResult) (w w' : World S V D) (u : Unit)
      → judge_products backend r w ≡ again u w'
      → (w' ≡ w) × (r.has_more ≡ true) × (n : ℕ) × (r.next_page ≡ some n) × (r.start_page < n)
  judge_products-again r w w' u e = elim (Option-cases r.next_page) [
    | inl nothing ↦ absurd (let e' = rw nothing at e in ground arith)
    | inr (n, next) ↦ let e' = rw next at e in (ground arith, ground arith, n, next, ground arith)
  ]

  receive_products-again :
      (reply : Reply ProductResult) (w w' : World S V D) (u : Unit)
      → receive_products backend reply w ≡ again u w'
      → (r : ProductResult) × (reply ≡ answered r)
        × (r.has_more ≡ true)
        × (w'.server ≡ w.server)
        × (w'.storage ≡ w.storage)
        × (n : ℕ) × (r.next_page ≡ some n)
        × (r.start_page < n)
  receive_products-again (rejected m) w w' u e = absurd (ground arith)
  receive_products-again (refused status) w w' u e = absurd (ground arith)
  receive_products-again (answered r) w w' u e =
      let (same, more, n, next, less) = judge_products-again r _ w' u e in
      (r, refl, more, rw same refl, rw same refl, n, next, less)

  judge_products-ends :
      (r : ProductResult) (w w' : World S V D) (e : End)
      → judge_products backend r w ≡ ends e w'
      → w' ≡ w
  judge_products-ends r w w' e h = ground arith

  receive_products-ends :
      (reply : Reply ProductResult) (w w' : World S V D) (e : End)
      → receive_products backend reply w ≡ ends e w'
      → w'.storage ≡ w.storage
  receive_products-ends (rejected m) w w' e h = let same : w' ≡ w = ground arith in rw same refl
  receive_products-ends (refused status) w w' e h = let same : w' ≡ w = ground arith in rw same refl
  receive_products-ends (answered r) w w' e h = rw (judge_products-ends r _ w' e h) refl

  pub product_turn-again :
      (operation : Text) (w w' : World S V D) (u : Unit)
      → product_turn backend operation w ≡ again u w'
      → (r : ProductResult) × (backend.sync_products_batch
            (record { pages = 5; operation_id = operation })
            w.server
          ≡ (answered r, w'.server))
        × (r.has_more ≡ true)
        × (w'.storage ≡ w.storage)
        × (n : ℕ) × (r.next_page ≡ some n)
        × (r.start_page < n)
  unfolding product_turn
  product_turn-again operation w w' u e =
      let request : ProductRequest = record { pages = 5; operation_id = operation } in
      let (reply, v) = backend.sync_products_batch request w.server in
      let (r, is_r, more, v', s, n, next, less) =
        receive_products-again reply (called operation none v w) w' u e in
      (r, rw (v', is_r) refl, more, s, n, next, less)

  pub product_turn-ends :
      (operation : Text) (w w' : World S V D) (e : End)
      → product_turn backend operation w ≡ ends e w'
      → w'.storage ≡ w.storage
  unfolding product_turn
  product_turn-ends operation w w' e h =
      let request : ProductRequest = record { pages = 5; operation_id = operation } in
      let (reply, v) = backend.sync_products_batch request w.server in
      receive_products-ends reply (called operation none v w) w' e h
