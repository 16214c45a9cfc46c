-- ===== src/Circuit/Tests.antt =====
-- Runs of system/pkg/zkp/dynamic_circuit.go on the circuit of a schema with two fields.
use digital_identity_system.Circuit.Adult.{
  DateTerm, age_day, age_month, age_year, number, is_equal, conjunction, select, define_identity,
  Reading, IsNotAfter, adult_iff,
}
use digital_identity_system.Prelude.{
  ◌*◌, ◌%◌, ◌≤◌, ◌↔◌, if◌then◌else◌, arith, eqb, ℕ, String, ◌≡◌, refl, List, [], ◌∷◌, ok, All,
}
use digital_identity_system.Prelude.Int.{pos}
use digital_identity_system.Dict
use digital_identity_system.Schema.{secret_field_order, public_field_order}
use digital_identity_system.Schema.Orders.{listed, HasNoRepeat}
use digital_identity_system.Circuit.Values.{Value, text, convert_to_variable}
use digital_identity_system.Circuit.Build.{DynamicCircuit, fill_index, fill_metadata, circuit_of}
use digital_identity_system.Circuit.Samples.{diploma, host}
use digital_identity_system.Circuit.Assign.{
  check_required, place, variable_for, assign_one, assign_loop, assign_values,
}
use digital_identity_system.Circuit.Assign.Built.{circuit_of-IsBuilt}
use digital_identity_system.Circuit.Assign.Laws.{Assigned, IsSupplied, names, assign_values_sound}

abbrev values : List (String × Value ℕ)
values = ("year", Value.int (pos 2020)) ∷ ("name", text "Ada") ∷ []

abbrev done : DynamicCircuit ℕ
done = (assign_values host (circuit_of diploma) values).0

assigned : assign_values host (circuit_of diploma) values ≡ (done, ok tt)
unfolding assign_values assign_loop assign_one Dict.get circuit_of fill_metadata Dict.put
    variable_for convert_to_variable place fill_index secret_field_order public_field_order
    check_required Dict.has
assigned = refl

distinct : HasNoRepeat (names values)
unfolding listed
distinct = (refl, (refl, tt))

assign_values_sound_example :
    All (Assigned host done) values × All (IsSupplied values) done.schema.fields
assign_values_sound_example =
    assign_values_sound host (circuit_of diploma) done values
      (circuit_of-IsBuilt ℕ diploma (refl, (refl, tt), (refl, tt, tt))) distinct assigned

-- Somebody who was born on 1 February 2000, in a field of a hundred thousand elements.
born : DateTerm → ℕ
born age_day = 1
born age_month = 2
born age_year = 2000
born (number n) = n % 100000
born (is_equal x y) = if eqb (born x) (born y) then 1 else 0
born (conjunction x y) = born x * born y
born (select c x y) = if eqb (born c) 1 then born x else born y

birth : Reading
unfolding born
birth = record {
  modulus = 100000;
  value = born;
  numbers = λ n small. omega arith;
  zero_difference = λ x y. refl;
  conjunctions = λ x y a b. refl;
  selected = λ c x y one. ground (arith, one);
  not_selected = λ c x y none_. ground (arith, none_);
}

adult_iff_example :
    All (λ p. born p.0 ≤ born p.1) (define_identity 2026 11 26)
    ↔ ((1 ≤ 2) × (2 ≤ 12) × (1 ≤ 1) × (1 ≤ 31) × IsNotAfter 2000 2 1 2008 11 26)
unfolding birth born
adult_iff_example =
    adult_iff birth 2026 11 26 (omega arith) (omega arith) (omega arith) (omega arith)
