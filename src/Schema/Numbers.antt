-- ===== src/Schema/Numbers.antt =====
-- The numbers in a constraint's JSON value (system/pkg/zkp/schema.go), and Go's int64.
-- `Codec` stands for encoding/json, strconv, strings and fmt on the raw text and on floats.
use digital_identity_system.Prelude.{
  ℕ, ◌-◌, ◌%◌, ◌^◌, String, Bool, Option, none, some, List, ◌==◌, if◌then◌else◌, ltb, Result, ok,
  err, or_err,
}
use digital_identity_system.Prelude.Int.{ℤ, pos, negsuc}
use digital_identity_system.Schema.{ConstraintDefinition}

pub record Codec : Type 1 where
  pub Float : Type 0
  -- `json.Unmarshal` of the raw text into a `json.Number`, a float64, a string, a []float64
  pub as_number : String → Option String
  pub as_float : String → Option Float
  pub as_string : String → Option String
  pub as_floats : String → Option (List Float)
  -- `Int64` and `Float64` of a `json.Number`
  pub parse_int64 : String → Option ℤ
  pub parse_float : String → Option Float
  pub trim_space : String → String
  -- `int64(f)`, and `math.Trunc(f)` as a float
  pub int_of_float : Float → ℤ
  pub trunc : Float → Float
  pub same_float : Float → Float → Bool

pub data ValueError : Type 0 where
  missing_value missing_array not_array empty_numeric : ValueError
  invalid_numeric not_numeric : String → ValueError

-- The residue of an integer, and the int64 with that residue: Go's wrap-around.
abbrev pub mod_2_64 : ℤ → ℕ
mod_2_64 (pos n) = n % 2 ^ 64
mod_2_64 (negsuc n) = 2 ^ 64 - 1 - n % 2 ^ 64

abbrev pub signed_64 : ℕ → ℤ
signed_64 r = if ltb r (2 ^ 63) then pos r else negsuc (2 ^ 64 - 1 - r)

abbrev pub wrap_64 : ℤ → ℤ
wrap_64 z = signed_64 (mod_2_64 z)

module _ (codec : Codec) where
  open codec use {
    as_number, as_float, as_string, as_floats, parse_int64, parse_float, trim_space, int_of_float,
  }

  unfoldable pub parse_string_int : String → Result ValueError ℤ
  parse_string_int text =
      let value = trim_space text in
      if value == "" then err empty_numeric else elim (parse_int64 value) [
        | some v ↦ ok v
        | none ↦ elim (parse_float value) [
          | some f ↦ ok (int_of_float f)
          | none ↦ err (invalid_numeric value)
        ]
      ]

  -- The last two attempts of `ValueAsInt`: a float64, then a string.
  unfoldable pub float_or_string : String → Result ValueError ℤ
  unfolding parse_string_int
  float_or_string raw = elim (as_float raw) [
    | some f ↦ ok (int_of_float f)
    | none ↦ elim (as_string raw) [ some s ↦ parse_string_int s | none ↦ err (not_numeric raw) ]
  ]

  unfoldable pub value_as_int : ConstraintDefinition → Result ValueError ℤ
  unfolding float_or_string
  value_as_int c = if c.value == "" then err missing_value else elim (as_number c.value) [
    | none ↦ float_or_string c.value
    | some number ↦ elim (parse_int64 number) [
      | some v ↦ ok v
      | none ↦ elim (parse_float number) [
        | some f ↦ ok (int_of_float f)
        | none ↦ float_or_string c.value
      ]
    ]
  ]

  unfoldable pub value_as_number_slice : ConstraintDefinition → Result ValueError (List codec.Float)
  value_as_number_slice c =
      if c.value == "" then err missing_array else or_err (as_floats c.value) not_array
