-- ===== src/Sync/Central/Reading.antt =====
-- What is read of a state: only counts and pages that are in order, and a stored state as it was.
use royale_ai_platform.Prelude.{
  ◌≤◌, Option, none, some, ◌≡◌, refl, inl, inr, arith, ◌↔◌, Bool-cases, is_empty, >>=-elim,
}
use royale_ai_platform.Text.{Text, text}
use royale_ai_platform.Sync.Json.{
  Number, whole, fraction, negative, infinity, Value, null, boolean, number, string, array, object,
  Fields, read_field, as_record,
}
use royale_ai_platform.Sync.Central.{
  is_safe_number, is_positive_integer, safe_number, positive_integer, SyncStatus, ProductSyncTotals,
  ProductSyncState, parse_sync_status, read_totals, read_product_sync_state, or_fallback,
  parse_product_sync_state, EnhancedSyncStatus, parse_enhanced_sync_status,
}

-- Finite and not negative.
abbrev pub IsSafe : Number → Type 0
IsSafe (whole n) = Unit
IsSafe (fraction t) = Unit
IsSafe (negative t) = ⊥
IsSafe infinity = ⊥

-- A whole number from one on.
abbrev pub IsPage : Number → Type 0
IsPage (whole n) = 1 ≤ n
IsPage (fraction t) = ⊥
IsPage (negative t) = ⊥
IsPage infinity = ⊥

abbrev pub AreTotals : ProductSyncTotals → Type 0
AreTotals t =
    IsSafe t.fetched
    × IsSafe t.processed
    × IsSafe t.created
    × IsSafe t.updated
    × IsSafe t.skipped
    × IsSafe t.failed

abbrev pub IsState : ProductSyncState → Type 0
IsState s = IsPage s.start_page × IsPage s.current_page × AreTotals s.totals

abbrev pub IsStatus : SyncStatus → Type 0
IsStatus s =
    IsSafe s.products_count
    × IsSafe s.orders_count
    × IsSafe s.order_items_count
    × IsSafe s.orders_without_items
    × IsSafe s.orders_without_channel

pub safe_number_iff :
    (n : Number) (v : Option Value) → (safe_number v ≡ some n) ↔ ((v ≡ some (number n)) × IsSafe n)
unfolding safe_number is_safe_number
safe_number_iff n none = ground arith
safe_number_iff n (some null) = ground arith
safe_number_iff n (some (boolean b)) = ground arith
safe_number_iff n (some (number (whole k))) = ground arith
safe_number_iff n (some (number (fraction k))) = ground arith
safe_number_iff n (some (number (negative k))) = ground arith
safe_number_iff n (some (number infinity)) = ground arith
safe_number_iff n (some (string t)) = ground arith
safe_number_iff n (some (array t)) = ground arith
safe_number_iff n (some (object t)) = ground arith

pub positive_integer_iff :
    (n : Number) (v : Option Value)
    → (positive_integer v ≡ some n) ↔ ((v ≡ some (number n)) × IsPage n)
unfolding positive_integer is_positive_integer
positive_integer_iff n none = ground arith
positive_integer_iff n (some null) = ground arith
positive_integer_iff n (some (boolean b)) = ground arith
positive_integer_iff n (some (number (whole k))) = ground arith
positive_integer_iff n (some (number (fraction k))) = ground arith
positive_integer_iff n (some (number (negative k))) = ground arith
positive_integer_iff n (some (number infinity)) = ground arith
positive_integer_iff n (some (string t)) = ground arith
positive_integer_iff n (some (array t)) = ground arith
positive_integer_iff n (some (object t)) = ground arith

pub safe_number-IsSafe : {n : Number} (v : Option Value) → safe_number v ≡ some n → IsSafe n
safe_number-IsSafe v e = ((safe_number_iff _ v).0 e).1

positive_integer-IsPage : {n : Number} (v : Option Value) → positive_integer v ≡ some n → IsPage n
positive_integer-IsPage v e = ((positive_integer_iff _ v).0 e).1

read_totals_sound :
    (fields : Fields) (t : ProductSyncTotals) → read_totals fields ≡ some t → AreTotals t
unfolding read_totals
read_totals_sound fields t is =
    let get = λ (key : Text). safe_number (read_field key fields) in
    >>=-elim (get (text "fetched")) _ is (λ a a_is is.
      >>=-elim (get (text "processed")) _ is (λ b b_is is.
        >>=-elim (get (text "created")) _ is (λ c c_is is.
          >>=-elim (get (text "updated")) _ is (λ d d_is is.
            >>=-elim (get (text "skipped")) _ is (λ e e_is is.
              >>=-elim (get (text "failed")) _ is (λ f f_is is.
                let same : record {
                  fetched = a;
                  processed = b;
                  created = c;
                  updated = d;
                  skipped = e;
                  failed = f;
                }
                    ≡ t =
                  ground arith in
                rw (← same) (
                  safe_number-IsSafe _ a_is,
                  safe_number-IsSafe _ b_is,
                  safe_number-IsSafe _ c_is,
                  safe_number-IsSafe _ d_is,
                  safe_number-IsSafe _ e_is,
                  safe_number-IsSafe _ f_is,
                )))))))

read_product_sync_state_sound :
    (v : Value) (s : ProductSyncState) → read_product_sync_state v ≡ some s → IsState s
unfolding read_product_sync_state
read_product_sync_state_sound (object fields) s is =
    >>=-elim (as_record (read_field (text "totals") fields)) _ is (λ r r_is is.
      >>=-elim (positive_integer (read_field (text "startPage") fields)) _ is (λ a a_is is.
        >>=-elim (positive_integer (read_field (text "currentPage") fields)) _ is (λ b b_is is.
          >>=-elim (read_totals r) _ is (λ t t_is is.
            let same : record { start_page = a; current_page = b; totals = t } ≡ s = ground arith in
            rw (← same) (
              positive_integer-IsPage _ a_is,
              positive_integer-IsPage _ b_is,
              read_totals_sound r t t_is,
            )))))
read_product_sync_state_sound null s e = absurd (ground arith)
read_product_sync_state_sound (boolean b) s e = absurd (ground arith)
read_product_sync_state_sound (number n) s e = absurd (ground arith)
read_product_sync_state_sound (string t) s e = absurd (ground arith)
read_product_sync_state_sound (array i) s e = absurd (ground arith)

or_fallback-IsState :
    (o : Option ProductSyncState)
    → ((s : ProductSyncState) → o ≡ some s → IsState s)
    → IsState (or_fallback o)
or_fallback-IsState none h = ground arith
or_fallback-IsState (some s) h = h s refl

-- Whatever is stored and whatever `JSON.parse` makes of it, the pages of the state that
-- `parseProductSyncState` gives are whole numbers from one on, and its totals are finite and not
-- negative.
pub parse_product_sync_state-IsState :
    (parse : Text → Option Value) (raw : Option Text) → IsState (parse_product_sync_state parse raw)
unfolding parse_product_sync_state
parse_product_sync_state-IsState parse none = ground arith
parse_product_sync_state-IsState parse (some raw) = elim (Bool-cases (is_empty raw)) [
  | inl empty ↦ rw empty (ground arith)
  | inr there ↦ rw there (
      or_fallback-IsState _
        (λ s is. >>=-elim (parse raw) _ is (λ v _. read_product_sync_state_sound v s)))
]

parse_sync_status_sound : (v : Value) (s : SyncStatus) → parse_sync_status v ≡ some s → IsStatus s
unfolding parse_sync_status
parse_sync_status_sound (object fields) s is =
    let get = λ (key : Text). safe_number (read_field key fields) in
    >>=-elim (get (text "products_count")) _ is (λ a a_is is.
      >>=-elim (get (text "orders_count")) _ is (λ b b_is is.
        >>=-elim (get (text "order_items_count")) _ is (λ c c_is is.
          >>=-elim (get (text "orders_without_items")) _ is (λ d d_is is.
            >>=-elim (get (text "orders_without_channel")) _ is (λ e e_is is.
              let same : record {
                products_count = a;
                orders_count = b;
                order_items_count = c;
                orders_without_items = d;
                orders_without_channel = e;
              }
                  ≡ s =
                ground arith in
              rw (← same) (
                safe_number-IsSafe _ a_is,
                safe_number-IsSafe _ b_is,
                safe_number-IsSafe _ c_is,
                safe_number-IsSafe _ d_is,
                safe_number-IsSafe _ e_is,
              ))))))
parse_sync_status_sound null s e = absurd (ground arith)
parse_sync_status_sound (boolean b) s e = absurd (ground arith)
parse_sync_status_sound (number n) s e = absurd (ground arith)
parse_sync_status_sound (string t) s e = absurd (ground arith)
parse_sync_status_sound (array i) s e = absurd (ground arith)

-- Where `parseEnhancedSyncStatus` gives a status, all its counts are finite and not negative. Of the
-- page and the totals of its checkpoint nothing is said.
pub parse_enhanced_sync_status_sound :
    (v : Value) (s : EnhancedSyncStatus)
    → parse_enhanced_sync_status v ≡ some s
    → IsStatus s.counts × IsSafe s.zero_stock
unfolding parse_enhanced_sync_status
parse_enhanced_sync_status_sound (object fields) s is =
    >>=-elim (parse_sync_status (object fields)) _ is (λ counts counts_is is.
      >>=-elim (safe_number (read_field (text "zero_stock") fields)) _ is (λ z z_is is.
        let c : counts ≡ s.counts = ground arith in
        let n : z ≡ s.zero_stock = ground arith in
        rw (← c, ← n) (parse_sync_status_sound _ counts counts_is, safe_number-IsSafe _ z_is)))
parse_enhanced_sync_status_sound null s e = absurd (ground arith)
parse_enhanced_sync_status_sound (boolean b) s e = absurd (ground arith)
parse_enhanced_sync_status_sound (number n) s e = absurd (ground arith)
parse_enhanced_sync_status_sound (string t) s e = absurd (ground arith)
parse_enhanced_sync_status_sound (array i) s e = absurd (ground arith)
