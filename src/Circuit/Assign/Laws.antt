-- ===== src/Circuit/Assign/Laws.antt =====
-- What `AssignValues` (system/pkg/zkp/dynamic_circuit.go) leaves in the circuit.
use digital_identity_system.Prelude.{
  not, or_err-eq-ok, String, ◌≡◌, refl, sym, ap, ◌∙◌, subst, ◌⊎◌, inl, inr, true, false, ◌||◌, some,
  List, [], ◌∷◌, arith, All, Result, ok, err, >>=-eq-ok, eq_iff, Result-cases, or_err,
}
use digital_identity_system.Dict
use digital_identity_system.Dict.{Dict, has-put, has_of_get}
use digital_identity_system.Schema.{FieldDefinition}
use digital_identity_system.Schema.Prepare.{IsDeclared}
use digital_identity_system.Schema.Orders.{listed, HasNoRepeat}
use digital_identity_system.Circuit.Values.{Value, Variable, Host, CircuitError}
use digital_identity_system.Circuit.Build.{DynamicCircuit, field_variable}
use digital_identity_system.Circuit.Assign.{
  variable_for, assign_one, assign_loop, check_required, assign_values,
}
use digital_identity_system.Circuit.Assign.Built.{IsBuilt, IsDeclared-of_metadata}
use digital_identity_system.Circuit.Assign.Inputs.{Placed, place_total}

-- A name of the metadata is declared.
declared :
    {F : Type 0} (dc : DynamicCircuit F) (name : String) {field : FieldDefinition}
    → IsBuilt dc
    → Dict.get name dc.field_metadata ≡ some field
    → IsDeclared name dc.schema.fields
declared dc name b e =
    elim (IsDeclared-of_metadata name dc.schema.fields []
      (ap (Dict.has name) (sym b.metadata) ∙ has_of_get name dc.field_metadata e)) [
        | inl h ↦ absurd (unfold Dict.has Dict.get in cc h)
        | inr d ↦ d
      ]

-- What one pair of the values contributes: the field is declared, the value converts, and the
-- circuit holds the result at the field's input.
abbrev pub Assigned : {F : Type 0} → Host F → DynamicCircuit F → String × Value F → Type 0
Assigned {F} host dc (name, value) =
    (field : FieldDefinition) × (v : Variable F) × (Dict.get name dc.field_metadata ≡ some field)
    × (variable_for host field name value ≡ ok v)
    × (field_variable dc name ≡ ok (some (some v)))

abbrev pub names {ℓ} : {A : Type ℓ} → List (String × A) → List String
names [] = []
names ((name, _) ∷ rest) = name ∷ names rest

module _ {F : Type 0} (host : Host F) where
  -- A round either fails with an error of its own, or writes the converted value.
  assign_one_lem :
      (dc dc' : DynamicCircuit F) (name : String) (value : Value F)
      → IsBuilt dc
      → assign_one host dc name value ≡ ok dc'
      → (field : FieldDefinition) × (v : Variable F) × (Dict.get name dc.field_metadata
          ≡ some field)
        × (variable_for host field name value ≡ ok v)
        × Placed dc dc' name v
  unfolding assign_one
  assign_one_lem dc dc' name value b h =
      let (field, known, h') = >>=-eq-ok (or_err (Dict.get name dc.field_metadata) _) _ h in
      let found = or_err-eq-ok (Dict.get name dc.field_metadata) _ known in
      let (v, converted, h'') = >>=-eq-ok (variable_for host field name value) _ h' in
      let (dc'', placed, p) = place_total dc name v b (declared dc name b found) in
      let same : dc'' ≡ dc' = cc in
      (field, v, found, converted, subst (λ c. Placed dc c name v) same p)

  -- What the loop leaves when it ends without an error. An input that the values do not name
  -- stays as it is.
  record LoopDone (dc dc' : DynamicCircuit F) (assigned assigned' : Dict (Unit {0}))
      (values : List (String × Value F)) : Type 0 where
    built : IsBuilt dc'
    schema : dc'.schema ≡ dc.schema
    metadata : dc'.field_metadata ≡ dc.field_metadata
    kept :
        (other : String)
        → listed other (names values) ≡ false
        → field_variable dc' other ≡ field_variable dc other
    written : All (Assigned host dc') values
    recorded :
        (other : String)
        → Dict.has other assigned' ≡ (listed other (names values) || Dict.has other assigned)

  LoopDone-cons :
      (dc mid dc' : DynamicCircuit F) (assigned assigned' : Dict (Unit {0})) (name : String)
      (value : Value F) (values : List (String × Value F))
      → IsBuilt dc
      → listed name (names values) ≡ false
      → assign_one host dc name value ≡ ok mid
      → LoopDone mid dc' (Dict.put name tt assigned) assigned' values
      → LoopDone dc dc' assigned assigned' ((name, value) ∷ values)
  unfolding listed
  LoopDone-cons dc mid dc' assigned assigned' name value values b fresh e done =
      let (field, v, found, converted, p) = assign_one_lem dc mid name value b e in
      record {
        built = done.built;
        schema = done.schema ∙ p.schema;
        metadata = done.metadata ∙ p.metadata;
        kept = λ other h.
            done.kept other (ground arith)
            ∙ p.elsewhere other (ground (arith, eq_iff name other, eq_iff other name));
        written = (
          (
            field,
            v,
            ap (Dict.get name) (done.metadata ∙ p.metadata) ∙ found,
            converted,
            done.kept name fresh ∙ p.here,
          ),
          done.written,
        );
        recorded = λ other.
            done.recorded other
            ∙ ap (λ t. listed other (names values) || t) (has-put name tt other assigned)
            ∙ ground arith;
      }

  assign_loop_lem :
      (dc dc' : DynamicCircuit F) (assigned assigned' : Dict (Unit {0}))
      (values : List (String × Value F))
      → IsBuilt dc
      → HasNoRepeat (names values)
      → assign_loop host dc assigned values ≡ (dc', ok assigned')
      → LoopDone dc dc' assigned assigned' values
  unfolding assign_loop listed
  assign_loop_lem dc dc' assigned assigned' [] b distinct h =
      let same : dc ≡ dc' = cc in
      let alike : assigned ≡ assigned' = cc in
      record {
        built = subst IsBuilt same b;
        schema = ap (λ c. c.schema) (sym same);
        metadata = ap (λ c. c.field_metadata) (sym same);
        kept = λ other _. ap (λ c. field_variable c other) (sym same);
        written = tt;
        recorded = λ other. ap (Dict.has other) (sym alike);
      }
  assign_loop_lem dc dc' assigned assigned' ((name, value) ∷ values) b distinct h =
      elim (Result-cases (assign_one host dc name value)) [
        | inr (x, e) ↦ absurd (cc (rw (e, assign_loop) at h))
        | inl (mid, e) ↦
            let (field, v, found, converted, p) = assign_one_lem dc mid name value b e in
            LoopDone-cons dc mid dc' assigned assigned' name value values b distinct.0 e (
              assign_loop_lem mid dc' (Dict.put name tt assigned) assigned' values p.built
                distinct.1 (rw (e, assign_loop) at h))
      ]

loop_cases :
    {F : Type 0} (r : DynamicCircuit F × Result CircuitError (Dict (Unit {0})))
    → ((dc : DynamicCircuit F) × (assigned : Dict (Unit {0})) × (r ≡ (dc, ok assigned)))
      ⊎ ((dc : DynamicCircuit F) × (e : CircuitError) × (r ≡ (dc, err e)))
loop_cases (dc, ok assigned) = inl (dc, assigned, refl)
loop_cases (dc, err e) = inr (dc, e, refl)

-- A required field is among the values.
abbrev pub IsSupplied : {F : Type 0} → List (String × Value F) → FieldDefinition → Type 0
IsSupplied values field = (not field.required || listed field.name (names values)) ≡ true

check_required_lem :
    {F : Type 0} (assigned : Dict (Unit {0})) (values : List (String × Value F))
    (fields : List FieldDefinition)
    → ((other : String) → Dict.has other assigned ≡ listed other (names values))
    → check_required assigned fields ≡ ok tt
    → All (IsSupplied values) fields
unfolding check_required
check_required_lem assigned values [] same h = tt
check_required_lem assigned values (f ∷ fs) same h =
    let e = same f.name in (ground arith, check_required_lem assigned values fs same (ground arith))

-- If assigning to a built circuit succeeds, then every value is for a declared field, it was
-- converted, and the circuit holds the result at that field's input; and every required field
-- is among the values. (A Go map has no key twice.)
pub assign_values_sound :
    {F : Type 0} (host : Host F) (dc dc' : DynamicCircuit F) (values : List (String × Value F))
    → IsBuilt dc
    → HasNoRepeat (names values)
    → assign_values host dc values ≡ (dc', ok tt)
    → All (Assigned host dc') values × All (IsSupplied values) dc'.schema.fields
unfolding assign_values
assign_values_sound host dc dc' values b distinct h =
    elim (loop_cases (assign_loop host dc [] values)) [
      | inl (mid, assigned, e) ↦
          let done = assign_loop_lem host dc mid [] assigned values b distinct e in
          let same : mid ≡ dc' = ground (arith, e) in
          let checked : check_required assigned mid.schema.fields ≡ ok tt = ground (arith, e) in
          subst (λ c. All (Assigned host c) values × All (IsSupplied values) c.schema.fields) same
            (
              done.written,
              check_required_lem assigned values mid.schema.fields
                  (λ other. done.recorded other ∙ (unfold Dict.has Dict.get in ground arith))
                  checked,
            )
      | inr (mid, x, e) ↦ absurd (ground (arith, e))
    ]
