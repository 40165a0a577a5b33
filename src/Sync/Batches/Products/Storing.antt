-- ===== src/Sync/Batches/Products/Storing.antt =====
-- What the runs of `runProductBatches` leave in the session storage.
use royale_ai_platform.Prelude.{
  ℕ, zero, suc, Option, none, some, ◌≡◌, refl, inl, inr, arith, if◌then◌else◌, Bool-cases, if-if,
  Option-cases, ◌∙◌,
}
use royale_ai_platform.Text.{Text, text_eq, text_eq_refl, text_eq_iff}
use royale_ai_platform.Auth.Session.{Storage}
use royale_ai_platform.Auth.Session.Laws.{IsStorage}
use royale_ai_platform.Sync.Batches.{
  Backend, World, End, finished, thrown, turn_cases, with_storage, operation_or,
}
use royale_ai_platform.Sync.Batches.Products.{
  product_key, product_turn, product_loop, product_end, run_product_batches,
}
use royale_ai_platform.Sync.Batches.Products.Turns.{product_turn-again, product_turn-ends}

module _ {S V D : Type 0} (backend : Backend V) where
  product_loop-storage :
      (fuel : ℕ) (operation : Text) (w w' : World S V D) (e : End)
      → product_loop backend fuel operation w ≡ some (e, w')
      → w'.storage ≡ w.storage
  unfolding product_loop
  product_loop-storage zero operation w w' e h = absurd (ground arith)
  product_loop-storage (suc fuel) operation w w' e h =
      elim (turn_cases (product_turn backend operation w)) [
        | inl (e', w'', is) ↦
            let h' : some (e', w'') ≡ some (e, w') = rw is at h in
            let same : w'' ≡ w' = cc in
            rw (← same) (product_turn-ends backend operation w w'' e' is)
        | inr (u, w'', is) ↦
            let (r, answer, more, kept, n, next, less) =
              product_turn-again backend operation w w'' u is in
            let h' : product_loop backend fuel operation w'' ≡ some (e, w') = rw is at h in
            product_loop-storage fuel operation w'' w' e h' ∙ kept
      ]

-- Where a key has the value, a condition on the key changes nothing.
pub unchanged :
    {S : Type 0} (api : Storage S) (key j : Text) (s : S) (operation : Text)
    → api.get_item key s ≡ some operation
    → api.get_item j s ≡ (if text_eq key j then some operation else api.get_item j s)
unchanged api key j s operation there = elim (Bool-cases (text_eq key j)) [
  | inl same ↦ let k : key ≡ j = (text_eq_iff key j).0 same in rw same (rw (← k) there)
  | inr differs ↦ rw differs refl
]

-- What the session storage gives for a key after a run that ended in this way.
abbrev pub after_run : End → Text → Option Text
after_run finished operation = none
after_run (thrown message) operation = some operation

module _ {S V D : Type 0} {api : Storage S} (laws : IsStorage api) (backend : Backend V) where
  product_end-storage :
      (e : End) (fuel : ℕ) (operation : Text) (w w' : World S V D) (j : Text)
      → product_end api backend (product_loop backend fuel operation w) ≡ some (e, w')
      → api.get_item product_key w.storage ≡ some operation
      → api.get_item j w'.storage
        ≡ (if text_eq product_key j then after_run e operation else api.get_item j w.storage)
  product_end-storage e fuel operation w w' j h there =
      elim (Option-cases (product_loop backend fuel operation w)) [
        | inl out ↦ absurd (let h' = rw out at h in cc)
        | inr ((finished, v), is) ↦
            let h' : some (finished, with_storage (api.remove_item product_key v.storage) v)
                ≡ some (e, w') =
              rw is at h in
            let same : with_storage (api.remove_item product_key v.storage) v ≡ w' = cc in
            let e_is : finished ≡ e = cc in
            rw
              (
                ← same,
                ← e_is,
                laws.get-remove product_key j v.storage,
                product_loop-storage backend fuel operation w v finished is,
              )
              refl
        | inr ((thrown m, v), is) ↦
            let h' : some (thrown m, v) ≡ some (e, w') = rw is at h in
            let same : v ≡ w' = cc in
            let e_is : thrown m ≡ e = cc in
            rw (← same, ← e_is, product_loop-storage backend fuel operation w v (thrown m) is)
              (unchanged api product_key j w.storage operation there)
      ]

  -- Where the operation can be stored, then after a run that finished its item is gone, and after a
  -- run that threw the item is the operation, and a later run goes on with it, whichever id it would
  -- make; every other item is as before.
  pub run_product_batches-storage :
      (fuel : ℕ) (fresh : Text) (w w' : World S V D) (e : End) (s : S)
      → api.set_item product_key (operation_or fresh (api.get_item product_key w.storage)) w.storage
        ≡ some s
      → run_product_batches api backend fuel fresh w ≡ some (e, w')
      → ((j : Text)
          → api.get_item j w'.storage ≡ (
              if text_eq product_key j
              then after_run e (operation_or fresh (api.get_item product_key w.storage))
              else api.get_item j w.storage))
        × ((message : Text) (more : ℕ) (other : Text)
            → e ≡ thrown message
            → run_product_batches api backend more other w'
              ≡ run_product_batches api backend more
                  (operation_or fresh (api.get_item product_key w.storage))
                  w')
  unfolding run_product_batches
  run_product_batches-storage fuel fresh w w' e s put h =
      let operation = operation_or fresh (api.get_item product_key w.storage) in
      let h' : product_end api backend (product_loop backend fuel operation (with_storage s w))
          ≡ some (e, w') =
        rw put at h in
      let there : api.get_item product_key s ≡ some operation =
        rw
          (laws.get-set product_key product_key operation w.storage s put, text_eq_refl product_key)
          refl in
      let items =
        λ (j : Text). product_end-storage e fuel operation (with_storage s w) w' j h' there in
      (
        λ j.
            rw (items j, laws.get-set product_key j operation w.storage s put)
              (if-if (text_eq product_key j) _ _ _),
        λ message more other thrown_e.
            rw (items product_key, thrown_e, text_eq_refl product_key) refl,
      )
