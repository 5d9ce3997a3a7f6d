-- ===== src/Bigquery/Value.antt =====
-- src-tauri/src/drivers/bigquery/value.rs: BigQuery's text, read as its schema says.
mod Exact
mod Tests
use data_looker.Prelude.{
  ℕ, zero, suc, ◌+◌, ◌-◌, ◌*◌, ◌/◌, ◌^◌, Bool, true, false, not, ◌&&◌, ◌||◌, Option, none, some,
  List, [], ◌∷◌, ◌++◌, ◌==◌, ltb, leb, if◌then◌else◌, length, all, is_empty,
}
use data_looker.Text.{Text, codes, text_eq, is_digit, text_leb}
use data_looker.Text.Signed.{
  ℤ, pos, negsuc, signed, unsigned_abs, signed_text, read_bounded, parse_signed, split_once,
}
use data_looker.Json.{Value, Values, Fields}
use data_looker.Bigquery.Api.{
  Field, Nested, FieldList, field_of, no_fields, own_fields, last, next, name_of, kind_of, mode_of,
}

abbrev pub safe_integer : ℕ
safe_integer = 9_007_199_254_740_991

abbrev is_mode : Option Text → Text → Bool
is_mode none mode = false
is_mode (some m) mode = text_eq m mode

unfoldable pub repeated : Field → Bool
repeated field = is_mode (mode_of field) (codes "REPEATED")

unfoldable pub canonical : Text → Text
canonical kind =
    if text_eq kind (codes "INTEGER")
    then codes "INT64"
    else (if text_eq kind (codes "FLOAT")
        then codes "FLOAT64"
        else (if text_eq kind (codes "BOOLEAN")
            then codes "BOOL"
            else (if text_eq kind (codes "RECORD") then codes "STRUCT" else kind)))

unfoldable pub type_name : Field → Text
unfolding canonical repeated
type_name field =
    let name = canonical (kind_of field) in
    if repeated field then codes "ARRAY<" ++ (name ++ codes ">") else name

unfoldable pub holds_instants : Field → Bool
unfolding canonical
holds_instants field = text_eq (canonical (kind_of field)) (codes "TIMESTAMP")

unfoldable pub from_i64 : ℤ → Value
unfolding signed_text
from_i64 value =
    if leb (unsigned_abs value) safe_integer
    then Value.number (signed_text value)
    else Value.string (signed_text value)

abbrev pub i128_max : ℕ
i128_max = 2 ^ 127 - 1

-- `checked_mul` of an `i128`, and `checked_pow` of 10, whose 39th power is past it.
abbrev pub checked_mul : ℕ → ℕ → Option ℕ
checked_mul a b = if leb (a * b) i128_max then some (a * b) else none

abbrev pub checked_pow : ℕ → Option ℕ
checked_pow k = if ltb 38 k then none else some (10 ^ k)

-- The exponent's share of the shift, above and below nothing.
abbrev pub raises : ℤ → ℕ
raises (pos n) = n
raises (negsuc n) = 0

abbrev pub lowers : ℤ → ℕ
lowers (pos n) = 0
lowers (negsuc n) = suc n

-- `exponent - fraction.len() + 6` is `up - down`. Where that does not fit an `i32`, the power is past
-- an `i128` whichever way it wraps.
unfoldable pub shifted : ℕ → ℕ → ℕ → Option ℕ
shifted micros up down =
    if leb down up
    then (elim (checked_pow (up - down)) [ none ↦ none | some power ↦ checked_mul micros power ])
    else (elim (checked_pow (down - up)) [ none ↦ none | some power ↦ some (micros / power) ])

abbrev pub is_exponent : ℕ → Bool
is_exponent c = c == b'E' || c == b'e'

abbrev pub is_point : ℕ → Bool
is_point c = c == b'.'

-- Around what splits it, or the whole and what stands for the rest.
abbrev pub split_or : Option (Text × Text) → Text × Text → Text × Text
split_or none d = d
split_or (some p) d = p

abbrev pub strip_minus : Text → Bool × Text
strip_minus [] = (false, [])
strip_minus (c ∷ s) = if c == b'-' then (true, s) else (false, c ∷ s)

abbrev pub with_exponent : Text → Option ℤ → Option (Text × ℤ)
with_exponent mantissa none = none
with_exponent mantissa (some e) = some (mantissa, e)

unfoldable pub parts : Text → Option (Text × Text) → Option (Text × ℤ)
unfolding parse_signed
parts text none = some (text, pos 0)
parts text (some (mantissa, exponent)) = with_exponent mantissa (parse_signed 31 exponent)

-- The mantissa and the exponent.
unfoldable pub scientific : Text → Option (Text × ℤ)
unfolding split_once parts
scientific text = parts text (split_once is_exponent text)

-- `from_unix_timestamp_nanos` and its `to_string`, `serde_json::from_str`, and a float that is parsed
-- and made a value, are parameters.
pub record Readers : Type 0 where
  pub instant : ℤ → Option Text
  pub json : Text → Option Value
  pub float : Text → Option Value

module _ (readers : Readers) where
  unfoldable pub nanos : Bool → Option ℕ → Option Text
  nanos negative none = none
  nanos negative (some micros) = elim (checked_mul micros 1000) [
    | none ↦ none
    | some n ↦ readers.instant (signed negative n)
  ]

  unfoldable pub at_shift : Bool → ℕ → ℕ → Option ℕ → Option Text
  unfolding shifted nanos
  at_shift negative up down none = none
  at_shift negative up down (some micros) = nanos negative (shifted micros up down)

  unfoldable pub at_mantissa : Bool → Text → Text → ℤ → Option Text
  unfolding read_bounded at_shift
  at_mantissa negative whole fraction exponent =
      let digits = whole ++ fraction in
      if is_empty digits || not (all is_digit digits)
      then none
      else at_shift negative (raises exponent + 6) (lowers exponent + length fraction)
          (read_bounded i128_max digits 0)

  unfoldable pub at_exponent : Option (Text × ℤ) → Option Text
  unfolding split_once at_mantissa
  at_exponent none = none
  at_exponent (some (mantissa, exponent)) =
      let (negative, rest) = strip_minus mantissa in
      let (whole, fraction) = split_or (split_once is_point rest) (rest, []) in
      at_mantissa negative whole fraction exponent

  unfoldable pub timestamp : Text → Option Text
  unfolding scientific at_exponent
  timestamp text = at_exponent (scientific text)

  abbrev or_as_is : Option Value → Value → Value
  or_as_is none value = value
  or_as_is (some read) value = read

  abbrev int_value : Option ℤ → Option Value
  int_value none = none
  int_value (some n) = some (from_i64 n)

  abbrev text_value : Option Text → Option Value
  text_value none = none
  text_value (some t) = some (Value.string t)

  unfoldable pub scalar : Value → Text → Value
  unfolding parse_signed timestamp from_i64
  scalar (Value.string text) kind =
      if text_eq kind (codes "INT64")
      then or_as_is (int_value (parse_signed 63 text)) (Value.string text)
      else (if text_eq kind (codes "FLOAT64")
          then or_as_is (readers.float text) (Value.string text)
          else (if text_eq kind (codes "BOOL")
              then Value.bool (text_eq text (codes "true"))
              else (if text_eq kind (codes "JSON")
                  then or_as_is (readers.json text) (Value.string text)
                  else (if text_eq kind (codes "TIMESTAMP")
                      then or_as_is (text_value (timestamp text)) (Value.string text)
                      else Value.string text))))
  scalar value kind = value

-- An entry of a JSON object, which is kept by its keys: `BTreeMap::insert`.
unfoldable pub insert_field : Text → Value → Fields → Fields
insert_field name value Fields.end = Fields.field name value Fields.end
insert_field name value (Fields.field key old rest) =
    let behind = insert_field name value rest in
    if text_eq name key
    then Fields.field key value rest
    else (if text_leb name key
        then Fields.field name value (Fields.field key old rest)
        else Fields.field key old behind)

module _ (readers : Readers) where
  -- Each of these walks down a value to the ones that it holds, the entry `v` of an item or the
  -- entry `f` of a record among them; where that is missing, there is nothing to decode.
  unfoldable mutual
    unfolding scalar canonical repeated insert_field

    pub decode_value : Value → Field → Bool → Value
    decode_value Value.null field as_list = Value.null
    decode_value (Value.array items) field true = Value.array (elements items field)
    decode_value value field true = Value.null
    decode_value (Value.object entries) (field_of _ kind _ nested) false =
        let named = record_in entries nested in
        if text_eq (canonical kind) (codes "STRUCT") then named else Value.object entries
    decode_value value (field_of _ kind _ nested) false =
        if text_eq (canonical kind) (codes "STRUCT")
        then Value.null
        else scalar readers value (canonical kind)

    pub elements : Values → Field → Values
    elements Values.nil field = Values.nil
    elements (Values.cons (Value.object entries) items) field =
        Values.cons (element entries field false) (elements items field)
    elements (Values.cons item items) field = Values.cons Value.null (elements items field)

    pub element : Fields → Field → Bool → Value
    element Fields.end field as_list = Value.null
    element (Fields.field key value rest) field as_list =
        let here = decode_value value field as_list in
        let there = element rest field as_list in if text_eq key (codes "v") then here else there

    pub record_in : Fields → Nested → Value
    record_in Fields.end nested = Value.null
    record_in (Fields.field key value rest) no_fields = Value.null
    record_in (Fields.field key (Value.array cells) rest) (own_fields own) =
        let here = Value.object (named_cells cells own Fields.end) in
        let there = record_in rest (own_fields own) in
        if text_eq key (codes "f") then here else there
    record_in (Fields.field key value rest) (own_fields own) =
        let there = record_in rest (own_fields own) in
        if text_eq key (codes "f") then Value.null else there

    -- The fields zipped with their cells, into the object `named` so far.
    pub named_cells : Values → FieldList → Fields → Fields
    named_cells Values.nil fields named = named
    named_cells (Values.cons cell cells) last named = named
    named_cells (Values.cons (Value.object entries) cells) (next field fields) named =
        named_cells cells fields
          (insert_field (name_of field) (element entries field (repeated field)) named)
    named_cells (Values.cons cell cells) (next field fields) named =
        named_cells cells fields (insert_field (name_of field) Value.null named)

  unfoldable pub decode : Option Value → Field → Value
  unfolding decode_value repeated
  decode none field = Value.null
  decode (some value) field = decode_value value field (repeated field)
