-- ===== src/Circuit/Build.antt =====
-- system/pkg/zkp/dynamic_circuit.go: the circuit that a schema gives.
use digital_identity_system.Prelude.{
  ℕ, zero, suc, String, Option, none, some, List, [], ◌∷◌, length, get_elem?, Result, ok, err,
}
use digital_identity_system.Dict
use digital_identity_system.Dict.{Dict}
use digital_identity_system.Schema.{
  FieldDefinition, SchemaDefinition, secret_field_order, public_field_order,
}
use digital_identity_system.Circuit.Values.{
  Variable, CircuitError, nil_schema, unknown_circuit_field,
}

-- A slot is `none` while its `frontend.Variable` is nil.
pub record DynamicCircuit (F : Type 0) : Type 0 where
  pub secret_values : List (Option (Variable F))
  pub public_values : List (Option (Variable F))
  pub schema : SchemaDefinition
  pub secret_order : List String
  pub public_order : List String
  pub secret_index : Dict ℕ
  pub public_index : Dict ℕ
  pub field_metadata : Dict FieldDefinition

-- `make([]frontend.Variable, n)`
unfoldable pub empty_slots {ℓ} : {A : Type ℓ} → ℕ → List (Option A)
empty_slots zero = []
empty_slots (suc n) = none ∷ empty_slots n

-- `for i, name := range order { index[name] = i }`, from position `i` on
unfoldable pub fill_index : ℕ → List String → Dict ℕ → Dict ℕ
fill_index i [] index = index
fill_index i (name ∷ names) index = fill_index (suc i) names (Dict.put name i index)

unfoldable pub fill_metadata : List FieldDefinition → Dict FieldDefinition → Dict FieldDefinition
fill_metadata [] metadata = metadata
fill_metadata (field ∷ fields) metadata = fill_metadata fields (Dict.put field.name field metadata)

module _ {F : Type 0} where
  -- The circuit that `NewDynamicCircuit` returns for a schema.
  unfoldable pub circuit_of : SchemaDefinition → DynamicCircuit F
  circuit_of schema =
      let secret_order = secret_field_order schema in
      let public_order = public_field_order schema in
      record {
        secret_values = empty_slots (length secret_order);
        public_values = empty_slots (length public_order);
        schema = schema;
        secret_order = secret_order;
        public_order = public_order;
        secret_index = fill_index 0 secret_order [];
        public_index = fill_index 0 public_order [];
        field_metadata = fill_metadata schema.fields [];
      }

  -- `none` is the nil schema.
  unfoldable pub new_dynamic_circuit :
      Option SchemaDefinition → Result CircuitError (DynamicCircuit F)
  unfolding circuit_of
  new_dynamic_circuit none = err nil_schema
  new_dynamic_circuit (some schema) = ok (circuit_of schema)

  unfoldable pub clone : DynamicCircuit F → DynamicCircuit F
  clone dc = record dc {
    secret_values = empty_slots (length dc.secret_values);
    public_values = empty_slots (length dc.public_values);
  }

  -- `fieldVariable`; the inner `none` is an index out of range, a panic in Go.
  unfoldable pub field_variable :
      DynamicCircuit F → String → Result CircuitError (Option (Option (Variable F)))
  field_variable dc name = elim (Dict.get name dc.secret_index) [
    | some i ↦ ok (get_elem? dc.secret_values i)
    | none ↦ elim (Dict.get name dc.public_index) [
      | some i ↦ ok (get_elem? dc.public_values i)
      | none ↦ err (unknown_circuit_field name)
    ]
  ]
