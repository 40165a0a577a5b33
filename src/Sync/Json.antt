-- ===== src/Sync/Json.antt =====
-- The values that `JSON.parse` makes, and their fields.
use royale_ai_platform.Prelude.{ℕ, Bool, Option, none, some, if◌then◌else◌}
use royale_ai_platform.Text.{Text, text_eq}

-- The numbers that `JSON.parse` makes: not negative and without a fraction, other finite ones that
-- are not negative, negative ones, and `Infinity`.
pub data Number : Type 0 where
  whole : ℕ → Number
  fraction : Text → Number
  negative : Text → Number
  infinity : Number

mutual
  pub data Value : Type 0 where
    null : Value
    boolean : Bool → Value
    number : Number → Value
    string : Text → Value
    array : Items → Value
    object : Fields → Value

  pub data Items : Type 0 where
    no_items : Items
    item : Value → Items → Items

  pub data Fields : Type 0 where
    no_fields : Fields
    field : Text → Value → Fields → Fields

-- `value[key]`, `none` for `undefined`
unfoldable pub read_field : Text → Fields → Option Value
read_field key no_fields = none
read_field key (field k v rest) =
    let found = read_field key rest in if text_eq k key then some v else found

-- `isRecord`, with the record
unfoldable pub as_record : Option Value → Option Fields
as_record (some (object fields)) = some fields
as_record _ = none
