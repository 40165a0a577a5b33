-- ===== src/Sync/Central.antt =====
-- Reading the states of the synchronisation: sync-central-state.ts of
-- frontend/src/app/(authenticated)/admin/integrations/bling. `JSON.parse` is an argument; it makes an
-- object's keys distinct, and the fields are read from the object itself.
pub mod Reading
pub mod Storing
use royale_ai_platform.Prelude.{
  ℕ, Bool, true, false, Option, none, some, List, [], ◌∷◌, ◌&&◌, leb, if◌then◌else◌, is_empty,
  ◌>>=◌,
}
use royale_ai_platform.Sync.Json.{
  Number, whole, fraction, negative, infinity, Value, number, string, object, Fields, no_fields,
  read_field, as_record,
}
use royale_ai_platform.Text.{Text, text, text_eq}

-- `isSafeNumber` of a number
unfoldable pub is_safe_number : Number → Bool
is_safe_number (whole n) = true
is_safe_number (fraction t) = true
is_safe_number (negative t) = false
is_safe_number infinity = false

unfoldable pub is_positive_integer : Number → Bool
is_positive_integer (whole n) = leb 1 n
is_positive_integer _ = false

-- `isSafeNumber` and `isPositiveInteger` of a field, with the number where they hold.
unfoldable pub safe_number : Option Value → Option Number
safe_number (some (number n)) = if is_safe_number n then some n else none
safe_number _ = none

unfoldable pub positive_integer : Option Value → Option Number
positive_integer (some (number n)) = if is_positive_integer n then some n else none
positive_integer _ = none

pub record SyncStatus : Type 0 where
  pub products_count : Number
  pub orders_count : Number
  pub order_items_count : Number
  pub orders_without_items : Number
  pub orders_without_channel : Number

pub record ProductSyncTotals : Type 0 where
  pub fetched : Number
  pub processed : Number
  pub created : Number
  pub updated : Number
  pub skipped : Number
  pub failed : Number

pub record ProductSyncState : Type 0 where
  pub start_page : Number
  pub current_page : Number
  pub totals : ProductSyncTotals

pub record Checkpoint : Type 0 where
  pub status : Text
  pub last_completed_page : Number
  pub totals : Fields

pub record EnhancedSyncStatus : Type 0 where
  pub counts : SyncStatus
  pub zero_stock : Number
  pub products_last_synced_at : Option Text
  pub orders_last_synced_at : Option Text
  pub order_items_last_synced_at : Option Text
  pub channels_last_synced_at : Option Text
  pub product_checkpoint : Option Checkpoint

abbrev pub product_sync_fallback : ProductSyncState
product_sync_fallback = record {
  start_page = whole 1;
  current_page = whole 1;
  totals = record {
    fetched = whole 0;
    processed = whole 0;
    created = whole 0;
    updated = whole 0;
    skipped = whole 0;
    failed = whole 0;
  };
}

unfoldable pub parse_sync_status : Value → Option SyncStatus
parse_sync_status (object value) = do
  products_count ← safe_number (read_field (text "products_count") value)
  orders_count ← safe_number (read_field (text "orders_count") value)
  order_items_count ← safe_number (read_field (text "order_items_count") value)
  orders_without_items ← safe_number (read_field (text "orders_without_items") value)
  orders_without_channel ← safe_number (read_field (text "orders_without_channel") value)
  some (record {
    products_count = products_count;
    orders_count = orders_count;
    order_items_count = order_items_count;
    orders_without_items = orders_without_items;
    orders_without_channel = orders_without_channel;
  })
parse_sync_status _ = none

unfoldable pub read_totals : Fields → Option ProductSyncTotals
read_totals totals = do
  fetched ← safe_number (read_field (text "fetched") totals)
  processed ← safe_number (read_field (text "processed") totals)
  created ← safe_number (read_field (text "created") totals)
  updated ← safe_number (read_field (text "updated") totals)
  skipped ← safe_number (read_field (text "skipped") totals)
  failed ← safe_number (read_field (text "failed") totals)
  some (record {
    fetched = fetched;
    processed = processed;
    created = created;
    updated = updated;
    skipped = skipped;
    failed = failed;
  })

-- What is read of a parsed state, `none` where the fallback is returned.
unfoldable pub read_product_sync_state : Value → Option ProductSyncState
read_product_sync_state (object parsed) = do
  totals_record ← as_record (read_field (text "totals") parsed)
  start_page ← positive_integer (read_field (text "startPage") parsed)
  current_page ← positive_integer (read_field (text "currentPage") parsed)
  totals ← read_totals totals_record
  some (record { start_page = start_page; current_page = current_page; totals = totals })
read_product_sync_state _ = none

abbrev pub or_fallback : Option ProductSyncState → ProductSyncState
or_fallback none = product_sync_fallback
or_fallback (some state) = state

-- `parseProductSyncState`; `parse` gives `none` where `JSON.parse` throws.
unfoldable pub parse_product_sync_state : (Text → Option Value) → Option Text → ProductSyncState
parse_product_sync_state parse none = product_sync_fallback
parse_product_sync_state parse (some raw) =
    if is_empty raw
    then product_sync_fallback
    else or_fallback (parse raw >>= read_product_sync_state)

-- `typeof value === "string" ? value : null`
unfoldable pub string_or_null : Option Value → Option Text
string_or_null (some (string t)) = some t
string_or_null _ = none

-- `typeof value === "string" ? value : "unknown"`
unfoldable pub string_or_unknown : Option Value → Text
string_or_unknown (some (string t)) = t
string_or_unknown _ = text "unknown"

-- `typeof value === "number" ? value : 0`
unfoldable pub number_or_zero : Option Value → Number
number_or_zero (some (number n)) = n
number_or_zero _ = whole 0

-- `isRecord(value) ? value : {}`
unfoldable pub record_or_empty : Option Value → Fields
record_or_empty (some (object fields)) = fields
record_or_empty _ = no_fields

unfoldable pub read_checkpoint : Option Value → Option Checkpoint
read_checkpoint value = do
  checkpoint ← as_record value
  some (record {
    status = string_or_unknown (read_field (text "status") checkpoint);
    last_completed_page = number_or_zero (read_field (text "last_completed_page") checkpoint);
    totals = record_or_empty (read_field (text "totals") checkpoint);
  })

-- `parseEnhancedSyncStatus`; the first five counts are those of `SyncStatus`.
unfoldable pub parse_enhanced_sync_status : Value → Option EnhancedSyncStatus
parse_enhanced_sync_status (object value) = do
  counts ← parse_sync_status (object value)
  zero_stock ← safe_number (read_field (text "zero_stock") value)
  some (record {
    counts = counts;
    zero_stock = zero_stock;
    products_last_synced_at = string_or_null (read_field (text "products_last_synced_at") value);
    orders_last_synced_at = string_or_null (read_field (text "orders_last_synced_at") value);
    order_items_last_synced_at =
        string_or_null (read_field (text "order_items_last_synced_at") value);
    channels_last_synced_at = string_or_null (read_field (text "channels_last_synced_at") value);
    product_checkpoint = read_checkpoint (read_field (text "product_checkpoint") value);
  })
parse_enhanced_sync_status _ = none
