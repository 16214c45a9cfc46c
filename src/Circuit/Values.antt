-- ===== src/Circuit/Values.antt =====
-- system/pkg/zkp/value_conversion.go: Go values as circuit values.
-- `F` is the type of Go's floats; `Host` stands for fmt, strconv, strings, time and crypto/sha256.
use digital_identity_system.Prelude.{
  ℕ, String, Bool, ◌||◌, Option, none, some, ◌==◌, if◌then◌else◌, Result, ok, err, ◌>>=◌, or_err,
}
use digital_identity_system.Prelude.Int.{ℤ, pos}
use digital_identity_system.Schema.{
  FieldDefinition, field_type_integer, field_type_number, field_type_boolean, field_type_string,
  field_type_date,
}
use digital_identity_system.Schema.Numbers.{wrap_64, ValueError}

-- `interface{}`: one constructor for each kind of value that the code tells apart.
pub data Value (F : Type 0) : Type 0 where
  nil_value : Value F
  -- int, int8, …, int64, and the unsigned types
  int : ℤ → Value F
  uint : ℕ → Value F
  float : F → Value F
  bool : Bool → Value F
  text : String → Value F
  -- a `time.Time`: its Unix seconds, and its `String()`
  time : ℤ → String → Value F
  -- any other `fmt.Stringer`
  stringer : String → Value F
  -- any other type, by what fmt prints
  other : String → Value F

-- What is put into a `frontend.Variable`; `hash` is the big integer of a SHA-256 sum.
pub data Variable (F : Type 0) : Type 0 where
  int : ℤ → Variable F
  text : String → Variable F
  hash : ℕ → Variable F
  raw : Value F → Variable F

pub record Host (F : Type 0) : Type 0 where
  pub sprint : Value F → String
  pub parse_float : String → Option F
  pub parse_bool : String → Option Bool
  -- the Unix seconds of a date in the layouts RFC 3339 and 2006-01-02
  pub parse_rfc3339 : String → Option ℤ
  pub parse_date : String → Option ℤ
  pub int_of_float : F → ℤ
  pub equal_fold : String → String → Bool
  pub sha256_int : String → ℕ

pub data ConversionError : Type 0 where
  nil_for : String → ConversionError
  empty_integer bad_integer unsupported_numeric bad_boolean unsupported_boolean : ConversionError

pub data CircuitError : Type 0 where
  nil_schema : CircuitError
  unknown_assignment unmapped missing_required : String → CircuitError
  invalid_value invalid_numeric_value : String → ConversionError → CircuitError
  unsupported_constraint unsupported_operator unknown_circuit_field : String → CircuitError
  range_arity range_bounds bound_not_whole comparison_arity age_arity : CircuitError
  bad_value bad_constant : ValueError → CircuitError

module _ {F : Type 0} (host : Host F) where
  unfoldable pub parse_integer : String → Result ConversionError ℤ
  parse_integer s = do
    parsed ← or_err (host.parse_float s) bad_integer
    ok (host.int_of_float parsed)

  unfoldable pub convert_to_int : Value F → Result ConversionError ℤ
  unfolding parse_integer
  convert_to_int (int v) = ok v
  convert_to_int (uint v) = ok (wrap_64 (pos v))
  convert_to_int (float v) = ok (host.int_of_float v)
  convert_to_int (text v) = if v == "" then err empty_integer else parse_integer v
  convert_to_int (time _ v) = parse_integer v
  convert_to_int (stringer v) = parse_integer v
  convert_to_int _ = err unsupported_numeric

  abbrev pub bit : Bool → ℤ
  bit b = if b then pos 1 else pos 0

  unfoldable pub convert_to_bool : Value F → Result ConversionError ℤ
  convert_to_bool (bool v) = ok (bit v)
  convert_to_bool (text v) = do parsed ← or_err (host.parse_bool v) bad_boolean; ok (bit parsed)
  convert_to_bool _ = err unsupported_boolean

  unfoldable pub convert_date : Value F → Variable F
  convert_date (time seconds _) = Variable.int seconds
  convert_date (text v) = elim (host.parse_rfc3339 v) [
    | some t ↦ Variable.int t
    | none ↦ elim (host.parse_date v) [
      | some t ↦ Variable.int t
      | none ↦ Variable.text (host.sprint (text v))
    ]
  ]
  convert_date v = Variable.text (host.sprint v)

  -- The switch on the field's type, for a value that is not nil.
  unfoldable pub convert_typed : FieldDefinition → Value F → Result ConversionError (Variable F)
  unfolding convert_to_int convert_to_bool convert_date
  convert_typed field value =
      if field.type == field_type_integer || field.type == field_type_number
      then (do v ← convert_to_int value; ok (Variable.int v))
      else if field.type == field_type_boolean
      then (do v ← convert_to_bool value; ok (Variable.int v))
      else if field.type == field_type_string
      then ok (Variable.text (host.sprint value))
      else if field.type == field_type_date
      then ok (convert_date value)
      else ok (Variable.raw value)

  unfoldable pub convert_to_variable :
      FieldDefinition → Value F → Result ConversionError (Variable F)
  unfolding convert_typed
  convert_to_variable field nil_value = err (nil_for field.name)
  convert_to_variable field value = convert_typed field value
