-- ===== src/Circuit/Comparisons.antt =====
-- What the comparisons of system/pkg/zkp/dynamic_circuit.go mean, operator by operator.
use digital_identity_system.Prelude.{
  ℕ, ◌+◌, ◌≤◌, ◌<◌, String, ◌≡◌, ◌≢◌, refl, ◌↔◌, ◌⊎◌, inl, inr, some, [], ◌∷◌, ok, arith,
}
use digital_identity_system.Schema.{ConstraintDefinition}
use digital_identity_system.Schema.Numbers.{Codec}
use digital_identity_system.Circuit.Values.{Host}
use digital_identity_system.Circuit.Build.{DynamicCircuit}
use digital_identity_system.Circuit.Define.{
  Wire, Term, plus_one, Assertion, is_less_or_equal, is_equal, is_different, assertion_for,
  comparison_sides, apply_comparison_constraint,
}
use digital_identity_system.Circuit.Meaning.{Field}

-- The operators of a comparison, with their two spellings, and what they say.
pub data Operator : Type 0 where
  greater_equal greater_than less_equal less_than equal not_equal : Operator

unfoldable pub long : Operator → String
long greater_equal = "greater_equal"
long greater_than = "greater_than"
long less_equal = "less_equal"
long less_than = "less_than"
long equal = "equal"
long not_equal = "not_equal"

unfoldable pub short : Operator → String
short greater_equal = "ge"
short greater_than = "gt"
short less_equal = "le"
short less_than = "lt"
short equal = "eq"
short not_equal = "ne"

abbrev pub Compares : Operator → ℕ → ℕ → Type 0
Compares greater_equal x y = y ≤ x
Compares greater_than x y = y < x
Compares less_equal x y = x ≤ y
Compares less_than x y = x < y
Compares equal x y = x ≡ y
Compares not_equal x y = x ≢ y

-- The assertion that stands for an operator.
abbrev assertion_of : Operator → Term → Term → Assertion
assertion_of greater_equal x y = is_less_or_equal y x
assertion_of greater_than x y = is_less_or_equal (plus_one y) x
assertion_of less_equal x y = is_less_or_equal x y
assertion_of less_than x y = is_less_or_equal (plus_one x) y
assertion_of equal x y = is_equal x y
assertion_of not_equal x y = is_different x y

assertion_for-long :
    (o : Operator) (x y : Term) → assertion_for (long o) x y ≡ some (assertion_of o x y)
unfolding assertion_for long
assertion_for-long greater_equal x y = refl
assertion_for-long greater_than x y = refl
assertion_for-long less_equal x y = refl
assertion_for-long less_than x y = refl
assertion_for-long equal x y = refl
assertion_for-long not_equal x y = refl

assertion_for-short :
    (o : Operator) (x y : Term) → assertion_for (short o) x y ≡ some (assertion_of o x y)
unfolding assertion_for short
assertion_for-short greater_equal x y = refl
assertion_for-short greater_than x y = refl
assertion_for-short less_equal x y = refl
assertion_for-short less_than x y = refl
assertion_for-short equal x y = refl
assertion_for-short not_equal x y = refl

assertion_for-spelled :
    (o : Operator) (operator : String) (x y : Term)
    → (operator ≡ long o) ⊎ (operator ≡ short o)
    → assertion_for operator x y ≡ some (assertion_of o x y)
assertion_for-spelled o operator x y (inl e) = rw e (assertion_for-long o x y)
assertion_for-spelled o operator x y (inr e) = rw e (assertion_for-short o x y)

module _ (field : Field) (ρ : Wire → ℕ) where
  open field use {modulus, value, Holds}

  assertion_of_iff :
      (o : Operator) (x y : Term)
      → value ρ x + 1 < modulus
      → value ρ y + 1 < modulus
      → Holds ρ (assertion_of o x y) ↔ Compares o (value ρ x) (value ρ y)
  assertion_of_iff greater_equal x y x_small y_small = field.less_or_equal ρ y x
  assertion_of_iff greater_than x y x_small y_small =
      let next = field.value_plus_one ρ y y_small in
      let both = field.less_or_equal ρ (plus_one y) x in
      (λ h. omega (arith, next, both.0 h), λ h. both.1 (omega (arith, next)))
  assertion_of_iff less_equal x y x_small y_small = field.less_or_equal ρ x y
  assertion_of_iff less_than x y x_small y_small =
      let next = field.value_plus_one ρ x x_small in
      let both = field.less_or_equal ρ (plus_one x) y in
      (λ h. omega (arith, next, both.0 h), λ h. both.1 (omega (arith, next)))
  assertion_of_iff equal x y x_small y_small = field.equal ρ x y
  assertion_of_iff not_equal x y x_small y_small = field.different ρ x y

  -- For every operator, in both its spellings: a comparison whose sides are known gives one
  -- assertion, and it holds exactly if the values of the sides compare as the operator says,
  -- provided that neither value is the largest field element.
  pub comparison_iff :
      (codec : Codec) (host : Host codec.Float) (dc : DynamicCircuit codec.Float)
      (c : ConstraintDefinition) (o : Operator) (left right : Term)
      → (c.operator ≡ long o) ⊎ (c.operator ≡ short o)
      → comparison_sides codec host dc c c.fields ≡ ok (left, right)
      → value ρ left + 1 < modulus
      → value ρ right + 1 < modulus
      → (assertion : Assertion) × (apply_comparison_constraint codec host dc c
          ≡ ok (assertion ∷ []))
        × (Holds ρ assertion ↔ Compares o (value ρ left) (value ρ right))
  unfolding apply_comparison_constraint
  comparison_iff codec host dc c o left right spelling sides left_small right_small = (
    assertion_of o left right,
    simp (sides, assertion_for-spelled o c.operator left right spelling),
    assertion_of_iff o left right left_small right_small,
  )
