-- ===== src/Intake/Normalizer.antt =====
-- core/normalizer.py: the normalization of a parsed JSON value.
pub mod Idempotent
use Prim.Native.Char.{code}
use Prim.Native.String
use healpipe.Prelude.{
  ℕ, String, Bool, true, false, ◌||◌, Option, none, some, List, [], ◌∷◌, ◌==◌, nat_eq, string_eq,
  if◌then◌else◌, contains,
}
use healpipe.Database.Schema.Json.{ℤ, Value, Items, Fields, Payload, fields, payload}
use healpipe.Python.{Text}

-- _NULL_STRINGS
abbrev pub null_strings : List String
null_strings = "" ∷ "null" ∷ "none" ∷ "n/a" ∷ "na" ∷ "undefined" ∷ []

-- `"." in text`
abbrev pub has_dot : String → Bool
has_dot String.[] = false
has_dot (String.◌∷◌ c s) = code c == b'.' || has_dot s

-- The number that a text stands for, a float if it has a dot and else an int, or the text itself.
unfoldable pub parse_number : Text → String → Value
parse_number text stripped =
    let float_value : Value = elim (text.parse_float stripped) [
      | none ↦ Value.str stripped
      | some x ↦ Value.float x
    ] in
    let int_value : Value = elim (text.parse_int stripped) [
      | none ↦ Value.str stripped
      | some n ↦ Value.int n
    ] in
    if has_dot stripped then float_value else int_value

unfoldable pub normalize_text : Text → String → Value
normalize_text text value =
    let stripped = text.strip value in
    let lowered = text.lower stripped in
    if contains lowered null_strings
    then Value.null
    else if lowered == "true"
    then Value.boolean true
    else if lowered == "false"
    then Value.boolean false
    else parse_number text stripped

unfoldable mutual
  pub normalize_value : Text → Value → Value
  normalize_value text (Value.obj fs) = Value.obj (normalize_fields text fs)
  normalize_value text (Value.arr vs) = Value.arr (normalize_items text vs)
  normalize_value text (Value.str s) = normalize_text text s
  normalize_value text v = v

  pub normalize_items : Text → Items → Items
  normalize_items text Items.nil = Items.nil
  normalize_items text (Items.cons v vs) =
      Items.cons (normalize_value text v) (normalize_items text vs)

  pub normalize_fields : Text → Fields → Fields
  normalize_fields text Fields.end = Fields.end
  normalize_fields text (Fields.field k v fs) =
      Fields.field k (normalize_value text v) (normalize_fields text fs)

unfoldable pub normalize_payload : Text → Payload → Payload
normalize_payload text p = payload (normalize_fields text (fields p))
