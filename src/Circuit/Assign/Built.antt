-- ===== src/Circuit/Assign/Built.antt =====
-- A circuit as `NewDynamicCircuit` builds it (system/pkg/zkp/dynamic_circuit.go): its maps agree
-- with the orders of its schema, and it has a slot for each name.
use digital_identity_system.Prelude.{
  ℕ, ◌<◌, String, ◌≡◌, refl, ap, ◌⊎◌, inl, inr, true, none, some, List, [], ◌∷◌, length, get_elem?,
  arith, Bool-cases,
}
use digital_identity_system.Dict
use digital_identity_system.Dict.{Dict, has-put}
use digital_identity_system.Schema.{
  FieldDefinition, SchemaDefinition, secret_names, public_names, secret_field_order,
  public_field_order,
}
use digital_identity_system.Schema.Prepare.{HasDistinctNames, IsDeclared}
use digital_identity_system.Schema.Orders.{
  listed, declares_either, listed-secret_names, listed-public_names, HasNoRepeat-secret_names,
  HasNoRepeat-public_names,
}
use digital_identity_system.Circuit.Values.{Variable}
use digital_identity_system.Circuit.Build.{
  DynamicCircuit, empty_slots, fill_index, fill_metadata, circuit_of,
}
use digital_identity_system.Circuit.Indices.{order_index, order_index_none}

pub record IsBuilt {F : Type 0} (dc : DynamicCircuit F) : Type 0 where
  pub distinct : HasDistinctNames dc.schema.fields
  pub secrets : dc.secret_index ≡ fill_index 0 (secret_names dc.schema.fields) []
  pub publics : dc.public_index ≡ fill_index 0 (public_names dc.schema.fields) []
  pub metadata : dc.field_metadata ≡ fill_metadata dc.schema.fields []
  pub secret_slots : length dc.secret_values ≡ length (secret_names dc.schema.fields)
  pub public_slots : length dc.public_values ≡ length (public_names dc.schema.fields)

length-empty_slots {ℓ} : (A : Type ℓ) (n : ℕ) → length (empty_slots {A = A} n) ≡ n
unfolding empty_slots
length-empty_slots A ℕ.zero = refl
length-empty_slots A (ℕ.suc n) = ap ℕ.suc (length-empty_slots A n)

pub circuit_of-IsBuilt :
    (F : Type 0) (t : SchemaDefinition) → HasDistinctNames t.fields → IsBuilt (circuit_of {F = F} t)
unfolding circuit_of secret_field_order public_field_order
circuit_of-IsBuilt F t h = record {
  distinct = h;
  secrets = refl;
  publics = refl;
  metadata = refl;
  secret_slots = length-empty_slots (Variable F) (length (secret_names t.fields));
  public_slots = length-empty_slots (Variable F) (length (public_names t.fields));
}

-- The position of a declared name, in the one index that has it.
pub data HasPlace {F : Type 0} (dc : DynamicCircuit F) (name : String) : Type 0 where
  secret_place :
      (p : ℕ)
      → Dict.get name dc.secret_index ≡ some p
      → get_elem? (secret_names dc.schema.fields) p ≡ some name
      → p < length dc.secret_values
      → HasPlace dc name
  public_place :
      (p : ℕ)
      → Dict.get name dc.secret_index ≡ none
      → Dict.get name dc.public_index ≡ some p
      → get_elem? (public_names dc.schema.fields) p ≡ some name
      → p < length dc.public_values
      → HasPlace dc name

pub IsBuilt-place :
    {F : Type 0} {dc : DynamicCircuit F} (name : String)
    → IsBuilt dc
    → IsDeclared name dc.schema.fields
    → HasPlace dc name
IsBuilt-place {dc} name b d =
    let fields = dc.schema.fields in
    elim (Bool-cases (listed name (secret_names fields))) [
      | inl secret ↦
          let (p, found, at, short) =
            order_index name (secret_names fields) (HasNoRepeat-secret_names fields b.distinct)
              secret in
          secret_place p (rw b.secrets found) at (omega (arith, b.secret_slots))
      | inr other ↦
          let public : listed name (public_names fields) ≡ true = ground (
            arith,
            (declares_either name fields).1 d,
            listed-secret_names name fields,
            listed-public_names name fields,
          ) in
          let (p, found, at, short) =
            order_index name (public_names fields) (HasNoRepeat-public_names fields b.distinct)
              public in
          public_place p (rw b.secrets (order_index_none name (secret_names fields) other))
            (rw b.publics found) at (omega (arith, b.public_slots))
    ]

-- A name in the metadata is declared.
pub IsDeclared-of_metadata :
    (name : String) (fs : List FieldDefinition) (m : Dict FieldDefinition)
    → Dict.has name (fill_metadata fs m) ≡ true
    → (Dict.has name m ≡ true) ⊎ IsDeclared name fs
unfolding fill_metadata
IsDeclared-of_metadata name [] m h = inl h
IsDeclared-of_metadata name (f ∷ fs) m h =
    ground (arith, IsDeclared-of_metadata name fs (Dict.put f.name f m), has-put f.name f name m)
