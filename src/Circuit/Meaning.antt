-- ===== src/Circuit/Meaning.antt =====
-- What the assertions of `Define` (system/pkg/zkp/dynamic_circuit.go) mean, given what gnark
-- documents about its API.
use digital_identity_system.Prelude.{
  ℕ, ◌+◌, ◌-◌, ◌^◌, ◌≤◌, ◌<◌, String, ◌≡◌, ◌≢◌, subst, ◌↔◌, List, [], ◌∷◌, ok, All,
}
use digital_identity_system.Prelude.Int.{pos, negsuc}
use digital_identity_system.Schema.{ConstraintDefinition}
use digital_identity_system.Schema.Numbers.{Codec, value_as_number_slice}
use digital_identity_system.Circuit.Values.{Host}
use digital_identity_system.Circuit.Build.{DynamicCircuit}
use digital_identity_system.Circuit.Define.{
  Wire, Term, constant, plus_one, Assertion, is_less_or_equal, is_equal, is_different, wire_of,
  to_int_bound, apply_range_constraint,
}

-- gnark's field: an element is a number below the modulus, constants are taken modulo it, and
-- `AssertIsLessOrEqual` compares these numbers. The modulus of the curve has 254 bits.
pub record Field : Type 1 where
  pub modulus : ℕ
  pub value : (Wire → ℕ) → Term → ℕ
  pub Holds : (Wire → ℕ) → Assertion → Type 0
  pub large : 2 ^ 65 ≤ modulus
  pub bounded : (ρ : Wire → ℕ) (t : Term) → value ρ t < modulus
  pub value_pos : (ρ : Wire → ℕ) (n : ℕ) → n < modulus → value ρ (constant (pos n)) ≡ n
  pub value_negsuc :
      (ρ : Wire → ℕ) (n : ℕ) → n < modulus → value ρ (constant (negsuc n)) ≡ modulus - (n + 1)
  pub value_plus_one :
      (ρ : Wire → ℕ) (t : Term) → value ρ t + 1 < modulus → value ρ (plus_one t) ≡ value ρ t + 1
  pub less_or_equal :
      (ρ : Wire → ℕ) (s t : Term) → Holds ρ (is_less_or_equal s t) ↔ (value ρ s ≤ value ρ t)
  pub equal : (ρ : Wire → ℕ) (s t : Term) → Holds ρ (is_equal s t) ↔ (value ρ s ≡ value ρ t)
  pub different : (ρ : Wire → ℕ) (s t : Term) → Holds ρ (is_different s t) ↔ (value ρ s ≢ value ρ t)

module _ (field : Field) (ρ : Wire → ℕ) where
  open field use {modulus, value, Holds}

  at_most :
      (t : Term) (n : ℕ)
      → n < modulus
      → Holds ρ (is_less_or_equal t (constant (pos n))) ↔ (value ρ t ≤ n)
  at_most t n small =
      subst (λ m. Holds ρ (is_less_or_equal t (constant (pos n))) ↔ (value ρ t ≤ m))
        (field.value_pos ρ n small) (field.less_or_equal ρ t (constant (pos n)))

  at_least :
      (t : Term) (n : ℕ)
      → n < modulus
      → Holds ρ (is_less_or_equal (constant (pos n)) t) ↔ (n ≤ value ρ t)
  at_least t n small =
      subst (λ m. Holds ρ (is_less_or_equal (constant (pos n)) t) ↔ (m ≤ value ρ t))
        (field.value_pos ρ n small) (field.less_or_equal ρ (constant (pos n)) t)

  module _ (codec : Codec) (host : Host codec.Float) (dc : DynamicCircuit codec.Float)
      (c : ConstraintDefinition) (name : String) (term : Term) (one : c.fields ≡ name ∷ [])
      (wired : wire_of dc name ≡ ok term) where
    -- A range constraint on one declared field, with whole bounds from 0 to the modulus, gives
    -- assertions that hold exactly if the field's value is not below the first bound and not above
    -- the second.
    pub range_iff :
        (low high : codec.Float) (a b : ℕ)
        → value_as_number_slice codec c ≡ ok (low ∷ high ∷ [])
        → to_int_bound codec host dc low ≡ ok (pos a)
        → to_int_bound codec host dc high ≡ ok (pos b)
        → a < modulus
        → b < modulus
        → (assertions : List Assertion) × (apply_range_constraint codec host dc c ≡ ok assertions)
          × (All (Holds ρ) assertions ↔ ((a ≤ value ρ term) × (value ρ term ≤ b)))
    unfolding apply_range_constraint
    range_iff low high a b slice first second a_small b_small = (
      is_less_or_equal (constant (pos a)) term ∷ is_less_or_equal term (constant (pos b)) ∷ [],
      simp (one, slice, first, second, wired),
      (
        λ (above, (below, _)).
            ((at_least term a a_small).0 above, (at_most term b b_small).0 below),
        λ (above, below).
            ((at_least term a a_small).1 above, ((at_most term b b_small).1 below, tt)),
      ),
    )
