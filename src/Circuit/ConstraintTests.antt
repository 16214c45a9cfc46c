-- ===== src/Circuit/ConstraintTests.antt =====
-- Runs of `Define` (system/pkg/zkp/dynamic_circuit.go) over a field of 2 ^ 65 elements.
use digital_identity_system.Prelude.{
  ℕ, ◌+◌, ◌-◌, ◌%◌, ◌^◌, ◌≤◌, ◌<◌, ◌≡◌, ◌≢◌, refl, ◌↔◌, inr, none, some, List, [], ◌∷◌, eqb, ok,
  arith, All,
}
use digital_identity_system.Prelude.Int.{pos, negsuc}
use digital_identity_system.Dict
use digital_identity_system.Schema.{ConstraintDefinition, secret_field_order, public_field_order}
use digital_identity_system.Schema.Numbers.{Codec, value_as_int, value_as_number_slice}
use digital_identity_system.Circuit.Build.{DynamicCircuit, circuit_of, fill_index}
use digital_identity_system.Circuit.Define.{
  Wire, public, Term, input, constant, digest, plus_one, Assertion, is_less_or_equal, is_equal,
  is_different, wire_of, to_int_bound, apply_range_constraint, comparison_sides,
  apply_comparison_constraint,
}
use digital_identity_system.Circuit.Meaning.{Field, range_iff}
use digital_identity_system.Circuit.Comparisons.{greater_equal, short, comparison_iff}
use digital_identity_system.Circuit.Samples.{diploma, host}

abbrev order : ℕ
order = 2 ^ 65

value : (Wire → ℕ) → Term → ℕ
value ρ (input w) = ρ w % order
value ρ (constant (pos n)) = n % order
value ρ (constant (negsuc n)) = order - 1 - n % order
value ρ (digest n) = n % order
value ρ (plus_one t) = (value ρ t + 1) % order

Holds : (Wire → ℕ) → Assertion → Type 0
Holds ρ (is_less_or_equal s t) = value ρ s ≤ value ρ t
Holds ρ (is_equal s t) = value ρ s ≡ value ρ t
Holds ρ (is_different s t) = value ρ s ≢ value ρ t

bounded : (ρ : Wire → ℕ) (t : Term) → value ρ t < order
unfolding value
bounded ρ (input w) = omega arith
bounded ρ (constant (pos n)) = omega arith
bounded ρ (constant (negsuc n)) = omega arith
bounded ρ (digest n) = omega arith
bounded ρ (plus_one t) = omega arith

small_field : Field
unfolding value Holds
small_field = record {
  modulus = order;
  value = value;
  Holds = Holds;
  large = omega arith;
  bounded = bounded;
  value_pos = λ ρ n small. omega arith;
  value_negsuc = λ ρ n small. omega arith;
  value_plus_one = λ ρ t small. omega arith;
  less_or_equal = λ ρ s t. (λ h. h, λ h. h);
  equal = λ ρ s t. (λ h. h, λ h. h);
  different = λ ρ s t. (λ h. h, λ h. h);
}

-- Every number in a constraint is 18, and every pair of bounds is 1990 and 2020.
abbrev codec : Codec
codec = record {
  Float = ℕ;
  as_number = λ _. none;
  as_float = λ _. some 18;
  as_string = λ _. none;
  as_floats = λ _. some (1990 ∷ 2020 ∷ []);
  parse_int64 = λ _. none;
  parse_float = λ _. none;
  trim_space = λ s. s;
  int_of_float = pos;
  trunc = λ f. f;
  same_float = eqb;
}

abbrev constraint : ConstraintDefinition
constraint = record {
  type = "comparison";
  fields = "year" ∷ [];
  operator = "ge";
  value = "18";
  error_message = "";
}

abbrev circuit : DynamicCircuit ℕ
circuit = circuit_of diploma

abbrev year : Term
year = input (public 0)

wired : wire_of circuit "year" ≡ ok year
unfolding wire_of circuit_of Dict.get fill_index secret_field_order Dict.put public_field_order
wired = refl

-- The year is 2000.
abbrev ρ : Wire → ℕ
ρ _ = 2000

slice : value_as_number_slice codec constraint ≡ ok (1990 ∷ 2020 ∷ [])
unfolding value_as_number_slice
slice = refl

whole : (n : ℕ) → to_int_bound codec host circuit n ≡ ok (pos n)
unfolding to_int_bound
whole n = ground arith

range_iff_example :
    (assertions : List Assertion) × (apply_range_constraint codec host circuit constraint
      ≡ ok assertions)
    × (All (Holds ρ) assertions ↔ ((1990 ≤ value ρ year) × (value ρ year ≤ 2020)))
unfolding small_field
range_iff_example =
    range_iff small_field ρ codec host circuit constraint "year" year refl wired 1990 2020 1990 2020
      slice (whole 1990) (whole 2020) (omega arith) (omega arith)

eighteen : value_as_int codec constraint ≡ ok (pos 18)
unfolding value_as_int
eighteen = refl

sides :
    comparison_sides codec host circuit constraint constraint.fields ≡ ok (year, constant (pos 18))
unfolding comparison_sides
sides = rw (wired, eighteen) refl

comparison_iff_example :
    (assertion : Assertion) × (apply_comparison_constraint codec host circuit constraint
      ≡ ok (assertion ∷ []))
    × (Holds ρ assertion ↔ (value ρ (constant (pos 18)) ≤ value ρ year))
unfolding small_field value short
comparison_iff_example =
    comparison_iff small_field ρ codec host circuit constraint greater_equal year
      (constant (pos 18)) (inr refl) sides (omega arith) (omega arith)
