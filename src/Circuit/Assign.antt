-- ===== src/Circuit/Assign.antt =====
-- `AssignValues` of system/pkg/zkp/dynamic_circuit.go. The values come as a list of pairs in the
-- order in which Go's `range` visits the map; what an earlier round wrote stays written when a
-- later one fails.
pub mod Built
pub mod Inputs
pub mod Laws
use digital_identity_system.Prelude.{
  ℕ, String, ◌||◌, Bool, true, false, Option, none, some, List, [], ◌∷◌, ◌==◌, if◌then◌else◌, set,
  Result, ok, err, ◌>>=◌, or_err,
}
use digital_identity_system.Dict
use digital_identity_system.Dict.{Dict}
use digital_identity_system.Schema.{FieldDefinition, field_type_string}
use digital_identity_system.Circuit.Values.{
  Value, text, Variable, hash, Host, ConversionError, CircuitError, unknown_assignment, unmapped,
  missing_required, invalid_value, invalid_numeric_value, convert_to_variable,
}
use digital_identity_system.Circuit.Build.{DynamicCircuit}

-- An error of a conversion, wrapped.
abbrev pub wrapped {ℓ} :
    {A : Type ℓ}
    → (ConversionError → CircuitError)
    → Result ConversionError A
    → Result CircuitError A
wrapped f (ok a) = ok a
wrapped f (err e) = err (f e)

-- The loop over the fields that have to be assigned.
unfoldable pub check_required :
    Dict (Unit {0}) → List FieldDefinition → Result CircuitError (Unit {0})
check_required assigned [] = ok tt
check_required assigned (field ∷ fields) =
    let rest = check_required assigned fields in
    if field.required
    then (if Dict.has field.name assigned then rest else err (missing_required field.name))
    else rest

module _ {F : Type 0} where
  unfoldable pub place :
      DynamicCircuit F → String → Variable F → Result CircuitError (DynamicCircuit F)
  place dc name variable = elim (Dict.get name dc.secret_index) [
    | some i ↦ ok (record dc { secret_values = set dc.secret_values i (some variable) })
    | none ↦ elim (Dict.get name dc.public_index) [
      | some i ↦ ok (record dc { public_values = set dc.public_values i (some variable) })
      | none ↦ err (unmapped name)
    ]
  ]

module _ {F : Type 0} (host : Host F) where
  unfoldable pub hash_string_to_field_element : String → Variable F
  hash_string_to_field_element s = hash (host.sha256_int s)

  unfoldable pub is_string_field : FieldDefinition → Bool
  is_string_field field = host.equal_fold field.type "string" || field.type == field_type_string

  unfoldable pub string_variable :
      FieldDefinition → String → Value F → Result CircuitError (Variable F)
  unfolding hash_string_to_field_element
  string_variable field name (text s) = ok (hash_string_to_field_element s)
  string_variable field name value =
      wrapped (invalid_numeric_value name) (convert_to_variable host field value)

  unfoldable pub variable_for :
      FieldDefinition → String → Value F → Result CircuitError (Variable F)
  unfolding is_string_field string_variable
  variable_for field name value =
      if is_string_field field
      then string_variable field name value
      else wrapped (invalid_value name) (convert_to_variable host field value)

  -- One round of the loop over the values.
  unfoldable pub assign_one :
      DynamicCircuit F → String → Value F → Result CircuitError (DynamicCircuit F)
  assign_one dc name value = do
    field ← or_err (Dict.get name dc.field_metadata) (unknown_assignment name)
    variable ← variable_for field name value
    place dc name variable

  unfoldable pub assign_loop :
      DynamicCircuit F
      → Dict (Unit {0})
      → List (String × Value F)
      → DynamicCircuit F × Result CircuitError (Dict (Unit {0}))
  assign_loop dc assigned [] = (dc, ok assigned)
  assign_loop dc assigned ((name, value) ∷ values) = elim (assign_one dc name value) [
    | err e ↦ (dc, err e)
    | ok dc' ↦ assign_loop dc' (Dict.put name tt assigned) values
  ]

  abbrev finish :
      DynamicCircuit F × Result CircuitError (Dict (Unit {0}))
      → DynamicCircuit F × Result CircuitError (Unit {0})
  finish (dc, r) = (dc, r >>= λ assigned. check_required assigned dc.schema.fields)

  unfoldable pub assign_values :
      DynamicCircuit F → List (String × Value F) → DynamicCircuit F × Result CircuitError (Unit {0})
  assign_values dc values = finish (assign_loop dc [] values)
