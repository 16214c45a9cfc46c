-- ===== src/Circuit/Assign/Inputs.antt =====
-- Writing one input of a built circuit (`AssignValues` of system/pkg/zkp/dynamic_circuit.go).
use digital_identity_system.Prelude.{
  ℕ, ◌<◌, String, ◌≡◌, ◌≢◌, refl, sym, ap, ◌∙◌, subst, inl, inr, false, none, some, List, ◌==◌,
  length, get_elem?, set, length-set, arith, get_elem?-set_self, get_elem?-set_ne, ok, err, eq_iff,
  Option-cases,
}
use digital_identity_system.Dict
use digital_identity_system.Dict.{Dict, has-put, has_of_get}
use digital_identity_system.Schema.{secret_names, public_names}
use digital_identity_system.Schema.Prepare.{IsDeclared}
use digital_identity_system.Schema.Orders.{HasNoRepeat-secret_names, HasNoRepeat-public_names}
use digital_identity_system.Circuit.Values.{Variable, unknown_circuit_field}
use digital_identity_system.Circuit.Build.{DynamicCircuit, field_variable}
use digital_identity_system.Circuit.Indices.{order_index_at}
use digital_identity_system.Circuit.Assign.{place}
use digital_identity_system.Circuit.Assign.Built.{
  IsBuilt, HasPlace, secret_place, public_place, IsBuilt-place,
}

-- The circuit after a write: built over the same schema, with the value at the name's input, and
-- with every other input as it was.
pub record Placed {F : Type 0} (dc dc' : DynamicCircuit F) (name : String) (v : Variable F)
    : Type 0 where
  pub built : IsBuilt dc'
  pub schema : dc'.schema ≡ dc.schema
  pub metadata : dc'.field_metadata ≡ dc.field_metadata
  pub here : field_variable dc' name ≡ ok (some (some v))
  pub elsewhere :
      (other : String)
      → (other == name) ≡ false
      → field_variable dc' other ≡ field_variable dc other

module _ {F : Type 0} (dc : DynamicCircuit F) (name : String) where
  read_secret :
      {p : ℕ}
      → Dict.get name dc.secret_index ≡ some p
      → field_variable dc name ≡ ok (get_elem? dc.secret_values p)
  unfolding field_variable
  read_secret found = rw (found, field_variable)

  read_public :
      {p : ℕ}
      → Dict.get name dc.secret_index ≡ none
      → Dict.get name dc.public_index ≡ some p
      → field_variable dc name ≡ ok (get_elem? dc.public_values p)
  unfolding field_variable
  read_public absent found = rw (absent, found, field_variable)

  read_nothing :
      Dict.get name dc.secret_index ≡ none
      → Dict.get name dc.public_index ≡ none
      → field_variable dc name ≡ err (unknown_circuit_field name)
  unfolding field_variable
  read_nothing absent nowhere = rw (absent, nowhere, field_variable)

module _ {F : Type 0} (dc : DynamicCircuit F) (name : String) (v : Variable F) where
  place_at_secret :
      {p : ℕ}
      → Dict.get name dc.secret_index ≡ some p
      → place dc name v ≡ ok (record dc { secret_values = set dc.secret_values p (some v) })
  unfolding place
  place_at_secret found = rw (found, place)

  place_at_public :
      {p : ℕ}
      → Dict.get name dc.secret_index ≡ none
      → Dict.get name dc.public_index ≡ some p
      → place dc name v ≡ ok (record dc { public_values = set dc.public_values p (some v) })
  unfolding place
  place_at_public absent found = rw (absent, found, place)

module _ {F : Type 0} (dc : DynamicCircuit F) (name : String) (v : Variable F)
    (b : IsBuilt dc) where
  distinct_positions :
      (names : List String) (p q : ℕ) (other : String)
      → (other == name) ≡ false
      → get_elem? names p ≡ some name
      → get_elem? names q ≡ some other
      → p ≢ q
  distinct_positions names p q other h at at' same =
      ground (arith, eq_iff other name, subst (λ i. get_elem? names i ≡ some name) same at)

  abbrev after_secret : ℕ → DynamicCircuit F
  after_secret p = record dc { secret_values = set dc.secret_values p (some v) }

  abbrev after_public : ℕ → DynamicCircuit F
  after_public p = record dc { public_values = set dc.public_values p (some v) }

  module _ (other : String) (apart : (other == name) ≡ false) where
    secret_elsewhere :
        (p : ℕ)
        → get_elem? (secret_names dc.schema.fields) p ≡ some name
        → field_variable (after_secret p) other ≡ field_variable dc other
    secret_elsewhere p at = elim (Option-cases (Dict.get other dc.secret_index)) [
      | inl nowhere ↦ elim (Option-cases (Dict.get other dc.public_index)) [
        | inl e ↦
            read_nothing (after_secret p) other nowhere e ∙ sym (read_nothing dc other nowhere e)
        | inr (q, e) ↦
            read_public (after_secret p) other nowhere e ∙ sym (read_public dc other nowhere e)
      ]
      | inr (q, there) ↦
          let names = secret_names dc.schema.fields in
          let at' =
            order_index_at other names q (HasNoRepeat-secret_names dc.schema.fields b.distinct)
              (ap (Dict.get other) (sym b.secrets) ∙ there) in
          read_secret (after_secret p) other there
          ∙ ap ok (
              get_elem?-set_ne dc.secret_values p q (some v)
                (distinct_positions names p q other apart at at'))
          ∙ sym (read_secret dc other there)
    ]

    public_elsewhere :
        (p : ℕ)
        → get_elem? (public_names dc.schema.fields) p ≡ some name
        → field_variable (after_public p) other ≡ field_variable dc other
    public_elsewhere p at = elim (Option-cases (Dict.get other dc.secret_index)) [
      | inr (q, there) ↦ read_secret (after_public p) other there ∙ sym (read_secret dc other there)
      | inl nowhere ↦ elim (Option-cases (Dict.get other dc.public_index)) [
        | inl e ↦
            read_nothing (after_public p) other nowhere e ∙ sym (read_nothing dc other nowhere e)
        | inr (q, there) ↦
            let names = public_names dc.schema.fields in
            let at' =
              order_index_at other names q (HasNoRepeat-public_names dc.schema.fields b.distinct)
                (ap (Dict.get other) (sym b.publics) ∙ there) in
            read_public (after_public p) other nowhere there
            ∙ ap ok (
                get_elem?-set_ne dc.public_values p q (some v)
                  (distinct_positions names p q other apart at at'))
            ∙ sym (read_public dc other nowhere there)
      ]
    ]

  place_secret :
      (p : ℕ)
      → Dict.get name dc.secret_index ≡ some p
      → get_elem? (secret_names dc.schema.fields) p ≡ some name
      → p < length dc.secret_values
      → Placed dc (after_secret p) name v
  place_secret p found at short = record {
    built = record {
      distinct = b.distinct;
      secrets = b.secrets;
      publics = b.publics;
      metadata = b.metadata;
      secret_slots = length-set dc.secret_values p (some v) ∙ b.secret_slots;
      public_slots = b.public_slots;
    };
    schema = refl;
    metadata = refl;
    here =
        read_secret (after_secret p) name found
        ∙ ap ok (get_elem?-set_self dc.secret_values p (some v) short);
    elsewhere = λ other apart. secret_elsewhere other apart p at;
  }

  place_public :
      (p : ℕ)
      → Dict.get name dc.secret_index ≡ none
      → Dict.get name dc.public_index ≡ some p
      → get_elem? (public_names dc.schema.fields) p ≡ some name
      → p < length dc.public_values
      → Placed dc (after_public p) name v
  place_public p absent found at short = record {
    built = record {
      distinct = b.distinct;
      secrets = b.secrets;
      publics = b.publics;
      metadata = b.metadata;
      secret_slots = b.secret_slots;
      public_slots = length-set dc.public_values p (some v) ∙ b.public_slots;
    };
    schema = refl;
    metadata = refl;
    here =
        read_public (after_public p) name absent found
        ∙ ap ok (get_elem?-set_self dc.public_values p (some v) short);
    elsewhere = λ other apart. public_elsewhere other apart p at;
  }

  -- A declared name always has an input to be written to.
  pub place_total :
      IsDeclared name dc.schema.fields
      → (dc' : DynamicCircuit F) × (place dc name v ≡ ok dc') × Placed dc dc' name v
  place_total d = go (IsBuilt-place name b d)
    where
      go :
          HasPlace dc name
          → (dc' : DynamicCircuit F) × (place dc name v ≡ ok dc') × Placed dc dc' name v
      go (secret_place p found at short) =
          (after_secret p, place_at_secret dc name v found, place_secret p found at short)
      go (public_place p absent found at short) = (
        after_public p,
        place_at_public dc name v absent found,
        place_public p absent found at short,
      )
