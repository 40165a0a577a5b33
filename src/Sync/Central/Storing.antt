-- ===== src/Sync/Central/Storing.antt =====
-- That a stored state of the synchronisation is read back as it was.
use royale_ai_platform.Prelude.{Option, none, some, ◌≡◌, refl, [], is_empty_of_ne, ◌≢◌}
use royale_ai_platform.Text.{Text, text, text_eq}
use royale_ai_platform.Sync.Json.{
  Number, Value, number, object, Fields, no_fields, field, read_field, as_record,
}
use royale_ai_platform.Sync.Central.{
  safe_number, positive_integer, ProductSyncTotals, ProductSyncState, read_totals,
  read_product_sync_state, parse_product_sync_state,
}
use royale_ai_platform.Sync.Central.Reading.{
  IsSafe, IsPage, AreTotals, IsState, safe_number_iff, positive_integer_iff,
}

-- The object that `JSON.stringify` gets.
abbrev totals_value : ProductSyncTotals → Fields
totals_value t = field (text "fetched") (number t.fetched) (
    field (text "processed") (number t.processed) (
      field (text "created") (number t.created) (
        field (text "updated") (number t.updated) (
          field (text "skipped") (number t.skipped)
            (field (text "failed") (number t.failed) no_fields)))))

abbrev pub state_value : ProductSyncState → Value
state_value s = object (
    field (text "startPage") (number s.start_page) (
      field (text "currentPage") (number s.current_page)
        (field (text "totals") (object (totals_value s.totals)) no_fields)))

-- What is relied on of `JSON`: the object of the state comes back from its text, and the empty text
-- is none.
pub record IsJson (parse : Text → Option Value) (stringify : Value → Text) (s : ProductSyncState)
    : Type 0 where
  pub parse-stringify : parse (stringify (state_value s)) ≡ some (state_value s)
  pub parse-empty : parse [] ≡ none

safe_back : (n : Number) → IsSafe n → safe_number (some (number n)) ≡ some n
safe_back n safe = (safe_number_iff n _).1 (refl, safe)

page_back : (n : Number) → IsPage n → positive_integer (some (number n)) ≡ some n
page_back n page = (positive_integer_iff n _).1 (refl, page)

read_totals-value : (t : ProductSyncTotals) → AreTotals t → read_totals (totals_value t) ≡ some t
unfolding read_totals read_field text_eq
read_totals-value t (a, b, c, d, e, f) =
    rw (safe_back _ a, safe_back _ b, safe_back _ c, safe_back _ d, safe_back _ e, safe_back _ f)
      refl

read-state_value :
    (s : ProductSyncState) → IsState s → read_product_sync_state (state_value s) ≡ some s
unfolding read_product_sync_state read_field text_eq as_record
read-state_value s (a, b, t) = rw (page_back _ a, page_back _ b, read_totals-value s.totals t) refl

-- A state whose pages and totals are in order is read back from its text as it was.
pub parse-stringify_state :
    (parse : Text → Option Value) (stringify : Value → Text) (s : ProductSyncState)
    → IsJson parse stringify s
    → IsState s
    → parse_product_sync_state parse (some (stringify (state_value s))) ≡ s
unfolding parse_product_sync_state
parse-stringify_state parse stringify s json ok =
    let back = json.parse-stringify in
    let there : stringify (state_value s) ≢ [] =
      λ e. absurd (let h = json.parse-empty in let back' = rw e at back in cc) in
    rw (is_empty_of_ne _ there, back, read-state_value s ok) refl
