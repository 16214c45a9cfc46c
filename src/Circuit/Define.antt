-- ===== src/Circuit/Define.antt =====
-- `Define` of system/pkg/zkp/dynamic_circuit.go: the assertions that the constraints of a schema
-- put on the inputs of the circuit. The calls of gnark's `frontend.API` are kept as data.
use digital_identity_system.Prelude.{
  ℕ, String, ◌||◌, Option, none, some, List, [], ◌∷◌, ◌++◌, ◌==◌, if◌then◌else◌, Result, ok, err,
  ◌>>=◌, or_err,
}
use digital_identity_system.Prelude.Int.{ℤ, pos, ◌-ℤ◌, ◌*ℤ◌}
use digital_identity_system.Dict
use digital_identity_system.Schema.{
  ConstraintDefinition, constraint_range, constraint_comparison, constraint_age,
}
use digital_identity_system.Schema.Numbers.{
  Codec, ValueError, value_as_int, value_as_number_slice, wrap_64,
}
use digital_identity_system.Circuit.Values.{
  Host, CircuitError, unsupported_constraint, unsupported_operator, unknown_circuit_field,
  range_arity, range_bounds, bound_not_whole, comparison_arity, age_arity, bad_value, bad_constant,
}
use digital_identity_system.Circuit.Build.{DynamicCircuit}

-- While gnark compiles a circuit, a slot holds the wire of that position.
pub data Wire : Type 0 where
  secret public : ℕ → Wire

-- What a `frontend.Variable` is built from. `digest` is the big integer of a SHA-256 sum, and
-- `plus_one t` is `api.Add(t, 1)`.
pub data Term : Type 0 where
  input : Wire → Term
  constant : ℤ → Term
  digest : ℕ → Term
  plus_one : Term → Term

-- `AssertIsLessOrEqual`, `AssertIsEqual`, `AssertIsDifferent`
pub data Assertion : Type 0 where
  is_less_or_equal is_equal is_different : Term → Term → Assertion

-- The only element of a list of one, and the two of a list of two.
abbrev pub only {ℓ} : {A : Type ℓ} → List A → CircuitError → Result CircuitError A
only (a ∷ []) e = ok a
only _ e = err e

abbrev pub both {ℓ} : {A : Type ℓ} → List A → CircuitError → Result CircuitError (A × A)
both (a ∷ b ∷ []) e = ok (a, b)
both _ e = err e

abbrev pub with_value {ℓ} :
    {A : Type ℓ} → (ValueError → CircuitError) → Result ValueError A → Result CircuitError A
with_value f (err e) = err (f e)
with_value f (ok a) = ok a

-- `fieldVariable` during `Define`
unfoldable pub wire_of : {F : Type 0} → DynamicCircuit F → String → Result CircuitError Term
wire_of dc name = elim (Dict.get name dc.secret_index) [
  | some i ↦ ok (input (secret i))
  | none ↦ elim (Dict.get name dc.public_index) [
    | some i ↦ ok (input (public i))
    | none ↦ err (unknown_circuit_field name)
  ]
]

-- The switch on the operator.
unfoldable pub assertion_for : String → Term → Term → Option Assertion
assertion_for operator left right =
    if operator == "greater_equal" || operator == "ge"
    then some (is_less_or_equal right left)
    else if operator == "greater_than" || operator == "gt"
    then some (is_less_or_equal (plus_one right) left)
    else if operator == "less_equal" || operator == "le"
    then some (is_less_or_equal left right)
    else if operator == "less_than" || operator == "lt"
    then some (is_less_or_equal (plus_one left) right)
    else if operator == "equal" || operator == "eq"
    then some (is_equal left right)
    else if operator == "not_equal" || operator == "ne"
    then some (is_different left right)
    else none

-- The latest birth that counts as old enough, in int64.
unfoldable pub min_birth_ts : ℕ → ℤ → ℤ
min_birth_ts now years = wrap_64 (pos now -ℤ wrap_64 (years *ℤ pos 31536000))

module _ (codec : Codec) (host : Host codec.Float) (dc : DynamicCircuit codec.Float) where
  unfoldable pub to_int_bound : codec.Float → Result CircuitError ℤ
  to_int_bound bound =
      if codec.same_float (codec.trunc bound) bound
      then ok (codec.int_of_float bound)
      else err bound_not_whole

  unfoldable pub apply_range_constraint :
      ConstraintDefinition → Result CircuitError (List Assertion)
  unfolding to_int_bound
  apply_range_constraint c = do
    name ← only c.fields range_arity
    bounds ← with_value bad_value (value_as_number_slice codec c)
    pair ← both bounds range_bounds
    low ← to_int_bound pair.0
    high ← to_int_bound pair.1
    value ← wire_of dc name
    ok (is_less_or_equal (constant low) value ∷ is_less_or_equal value (constant high) ∷ [])

  -- The constant of a comparison: the hash of a string, or a number.
  unfoldable pub constant_of : ConstraintDefinition → Result CircuitError Term
  constant_of c = elim (codec.as_string c.value) [
    | some s ↦ ok (digest (host.sha256_int s))
    | none ↦ do number ← with_value bad_constant (value_as_int codec c); ok (constant number)
  ]

  unfoldable pub comparison_sides :
      ConstraintDefinition → List String → Result CircuitError (Term × Term)
  unfolding constant_of
  comparison_sides c [] = err comparison_arity
  comparison_sides c (name ∷ []) = do
    left ← wire_of dc name
    right ← constant_of c
    ok (left, right)
  comparison_sides c (name ∷ other ∷ _) = do
    left ← wire_of dc name
    right ← wire_of dc other
    ok (left, right)

  unfoldable pub apply_comparison_constraint :
      ConstraintDefinition → Result CircuitError (List Assertion)
  unfolding comparison_sides assertion_for
  apply_comparison_constraint c = do
    sides ← comparison_sides c c.fields
    assertion ← or_err (assertion_for c.operator sides.0 sides.1) (unsupported_operator c.operator)
    ok (assertion ∷ [])

  unfoldable pub apply_age_constraint :
      ℕ → ConstraintDefinition → Result CircuitError (List Assertion)
  unfolding min_birth_ts
  apply_age_constraint now c = do
    name ← only c.fields age_arity
    years ← with_value bad_value (value_as_int codec c)
    birth ← wire_of dc name
    ok (is_less_or_equal birth (constant (min_birth_ts now years)) ∷ [])

  unfoldable pub apply_constraint : ℕ → ConstraintDefinition → Result CircuitError (List Assertion)
  unfolding apply_range_constraint apply_comparison_constraint apply_age_constraint
  apply_constraint now c =
      if c.type == constraint_range
      then apply_range_constraint c
      else if c.type == constraint_comparison
      then apply_comparison_constraint c
      else if c.type == constraint_age
      then apply_age_constraint now c
      else err (unsupported_constraint c.type)

  unfoldable pub apply_all : ℕ → List ConstraintDefinition → Result CircuitError (List Assertion)
  unfolding apply_constraint
  apply_all now [] = ok []
  apply_all now (c ∷ cs) = do
    here ← apply_constraint now c
    rest ← apply_all now cs
    ok (here ++ rest)

  unfoldable pub define : ℕ → Result CircuitError (List Assertion)
  unfolding apply_all
  define now = apply_all now dc.schema.constraints
