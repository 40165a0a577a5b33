-- ===== src/Sync/ProductSales.antt =====
-- The cache of product sales: frontend/src/services/product-sales.ts. The API and the clock are
-- arguments; `setItem` of the local storage is taken not to throw, and the store is its one item.
pub mod Revision
use royale_ai_platform.Prelude.{
  ℕ, ◌+◌, ◌-◌, Bool, true, false, Option, none, some, List, [], ◌∷◌, ◌&&◌, not, ltb, ◌==◌,
  if◌then◌else◌,
}
use royale_ai_platform.Text.{Text, text, text_eq, show}
use royale_ai_platform.Text.Table.{Table, table_get, table_set}

-- `SalesPeriod`
pub data Period : Type 0 where
  today : Period
  days7 : Period
  days30 : Period
  days90 : Period
  months12 : Period

abbrev pub period_text : Period → Text
period_text today = text "today"
period_text days7 = text "7d"
period_text days30 = text "30d"
period_text days90 = text "90d"
period_text months12 = text "12m"

-- `===` on what `getItem` gives
unfoldable pub same_revision : Option Text → Option Text → Bool
same_revision none none = true
same_revision (some a) (some b) = text_eq a b
same_revision _ _ = false

module _ (D : Type 0) where
  -- A value of the cache.
  pub record Cached : Type 0 where
    pub at : ℕ
    pub revision : Option Text
    pub data_ : D

  -- The cache by the texts of the periods, the stored revision and the events sent.
  pub record Sales : Type 0 where
    pub cache : Table Cached
    pub stored : Option Text
    pub events : List Text

module _ {D : Type 0} where
  -- `invalidateProductSales()`
  unfoldable pub invalidate_product_sales : ℕ → Sales D → Sales D
  invalidate_product_sales now s = record {
    cache = [];
    stored = some (show now);
    events = text "products-synced" ∷ s.events;
  }

  -- `Date.now() - cached.at < 60_000`; a clock that was set back makes the difference negative.
  abbrev pub is_recent : ℕ → Cached D → Bool
  is_recent now c = ltb now (60000 + c.at)

  abbrev serve : Bool → ℕ → Option Text → Option (Cached D) → Option D
  serve force now revision none = none
  serve force now revision (some c) =
      if not force && same_revision c.revision revision && is_recent now c
      then some c.data_
      else none

  -- `fetchProductSales` up to the call of the API: the cached data, if it may be given.
  unfoldable pub begin_fetch : Period → Bool → ℕ → Sales D → Option D
  begin_fetch period force now s = serve force now s.stored (table_get (period_text period) s.cache)

  -- `fetchProductSales` once the API has answered. `revision` is the one read at the beginning.
  unfoldable pub end_fetch : Period → Option Text → ℕ → D → Sales D → Sales D
  end_fetch period revision now received s = record {
    cache =
        table_set (period_text period) (record { at = now; revision = revision; data_ = received })
          s.cache;
    stored = s.stored;
    events = s.events;
  }
