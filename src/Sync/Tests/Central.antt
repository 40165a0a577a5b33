-- ===== src/Sync/Tests/Central.antt =====
-- Reading the states of the synchronisation at examples.
use royale_ai_platform.Prelude.{Option, none, some, ◌≡◌, refl, arith, if◌then◌else◌}
use royale_ai_platform.Text.{Text, text, text_eq}
use royale_ai_platform.Sync.Json.{
  whole, negative, Value, number, null, object, Fields, field, no_fields, read_field, as_record,
}
use royale_ai_platform.Sync.Central.{
  safe_number, is_safe_number, EnhancedSyncStatus, ProductSyncState, parse_product_sync_state,
  parse_sync_status, parse_enhanced_sync_status, read_checkpoint, string_or_null, string_or_unknown,
  number_or_zero, record_or_empty,
}
use royale_ai_platform.Sync.Central.Reading.{IsState, parse_product_sync_state-IsState}
use royale_ai_platform.Sync.Central.Storing.{IsJson, state_value, parse-stringify_state}

abbrev page_three : ProductSyncState
page_three = record {
  start_page = whole 1;
  current_page = whole 3;
  totals = record {
    fetched = whole 200;
    processed = whole 200;
    created = whole 12;
    updated = whole 188;
    skipped = whole 0;
    failed = whole 0;
  };
}

-- A store of one text.
abbrev stored_text : Text
stored_text = text "{startPage:1,currentPage:3}"

abbrev parse_stored : Text → Option Value
parse_stored t = if text_eq t stored_text then some (state_value page_three) else none

abbrev stringify_stored : Value → Text
stringify_stored v = stored_text

stored-IsJson : IsJson parse_stored stringify_stored page_three
unfolding text_eq
stored-IsJson = record { parse-stringify = refl; parse-empty = refl }

parse-stringify_state_example :
    parse_product_sync_state parse_stored (some stored_text) ≡ page_three
parse-stringify_state_example =
    parse-stringify_state parse_stored stringify_stored page_three stored-IsJson (ground arith)

parse_product_sync_state-IsState_example :
    IsState (parse_product_sync_state parse_stored (some stored_text))
parse_product_sync_state-IsState_example =
    parse_product_sync_state-IsState parse_stored (some stored_text)

-- A status whose checkpoint has a page below zero and totals that are no numbers.
abbrev odd_checkpoint : Fields
odd_checkpoint =
    field (text "last_completed_page") (number (negative (text "-4")))
      (field (text "totals") (object (field (text "fetched") null no_fields)) no_fields)

abbrev odd_status : Fields
odd_status = field (text "products_count") (number (whole 1)) (
    field (text "orders_count") (number (whole 2)) (
      field (text "order_items_count") (number (whole 3)) (
        field (text "orders_without_items") (number (whole 0)) (
          field (text "orders_without_channel") (number (whole 0)) (
            field (text "zero_stock") (number (whole 5))
              (field (text "product_checkpoint") (object odd_checkpoint) no_fields))))))

abbrev odd_result : EnhancedSyncStatus
odd_result = record {
  counts = record {
    products_count = whole 1;
    orders_count = whole 2;
    order_items_count = whole 3;
    orders_without_items = whole 0;
    orders_without_channel = whole 0;
  };
  zero_stock = whole 5;
  products_last_synced_at = none;
  orders_last_synced_at = none;
  order_items_last_synced_at = none;
  channels_last_synced_at = none;
  product_checkpoint = some (record {
    status = text "unknown";
    last_completed_page = negative (text "-4");
    totals = field (text "fetched") null no_fields;
  });
}

-- The checkpoint is passed on as it is.
odd_status_read : parse_enhanced_sync_status (object odd_status) ≡ some odd_result
unfolding parse_enhanced_sync_status parse_sync_status safe_number is_safe_number read_field
    read_checkpoint as_record string_or_null string_or_unknown number_or_zero record_or_empty
    text_eq
odd_status_read = refl
