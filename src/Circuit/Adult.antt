-- ===== src/Circuit/Adult.antt =====
-- `IdentityCircuit` of system/pkg/zkp/identity_circuit.go: a birth date is at least eighteen years
-- ago. The calls of gnark's `frontend.API` are kept as data.
use digital_identity_system.Prelude.{
  ℕ, ◌-◌, ◌*◌, ◌≤◌, ◌<◌, ◌≡◌, refl, ◌∙◌, ◌↔◌, ◌⊎◌, inl, inr, List, [], ◌∷◌, eqb, eqb_iff,
  if◌then◌else◌, arith, All, Bool-cases,
}

-- The three secret inputs, and the terms that `Define` builds from them.
pub data DateTerm : Type 0 where
  age_day age_month age_year : DateTerm
  number : ℕ → DateTerm
  is_equal : DateTerm → DateTerm → DateTerm
  conjunction : DateTerm → DateTerm → DateTerm
  select : DateTerm → DateTerm → DateTerm → DateTerm

-- The pairs that are asserted to be in order, on a date of the clock, whose year is past 18.
-- `is_equal x y` is `api.IsZero(api.Sub(x, y))`.
unfoldable pub define_identity : (year month day : ℕ) → List (DateTerm × DateTerm)
define_identity year month day =
    let min_valid_year = number (year - 18) in
    let year_is_min_valid = is_equal age_year min_valid_year in
    let month_is_current = is_equal age_month (number month) in
    (age_year, min_valid_year)
    ∷ (number 1, age_month)
    ∷ (age_month, number 12)
    ∷ (age_month, select year_is_min_valid (number month) (number 12))
    ∷ (number 1, age_day)
    ∷ (age_day, number 31)
    ∷ (age_day, select (conjunction year_is_min_valid month_is_current) (number day) (number 31))
    ∷ []

-- What gnark documents, for one assignment of the inputs.
pub record Reading : Type 0 where
  pub modulus : ℕ
  pub value : DateTerm → ℕ
  pub numbers : (n : ℕ) → n < modulus → value (number n) ≡ n
  pub zero_difference :
      (x y : DateTerm) → value (is_equal x y) ≡ (if eqb (value x) (value y) then 1 else 0)
  pub conjunctions :
      (x y : DateTerm) → value x ≤ 1 → value y ≤ 1 → value (conjunction x y) ≡ value x * value y
  pub selected : (c x y : DateTerm) → value c ≡ 1 → value (select c x y) ≡ value x
  pub not_selected : (c x y : DateTerm) → value c ≡ 0 → value (select c x y) ≡ value y

-- The date is at most the given one.
abbrev pub IsNotAfter : (y m d year month day : ℕ) → Type 0
IsNotAfter y m d year month day = (y < year) ⊎ (y ≡ year) × ((m < month) ⊎ (m ≡ month) × (d ≤ day))

-- The assertions, by what the two choices come to.
abbrev Asserted : (y m d year month day chosen_month chosen_day : ℕ) → Type 0
Asserted y m d year month day chosen_month chosen_day =
    (y ≤ year) × (1 ≤ m) × (m ≤ 12) × (m ≤ chosen_month) × (1 ≤ d) × (d ≤ 31) × (d ≤ chosen_day)

abbrev IsAdult : (y m d year month day : ℕ) → Type 0
IsAdult y m d year month day =
    (1 ≤ m) × (m ≤ 12) × (1 ≤ d) × (d ≤ 31) × IsNotAfter y m d year month day

Asserted-IsAdult :
    (y m d year month day chosen_month chosen_day : ℕ)
    → month ≤ 12
    → day ≤ 31
    → chosen_month ≡ (if eqb y year then month else 12)
    → chosen_day ≡ (if eqb y year then if eqb m month then day else 31 else 31)
    → Asserted y m d year month day chosen_month chosen_day ↔ IsAdult y m d year month day
Asserted-IsAdult y m d year month day chosen_month chosen_day month_fits day_fits cm cd =
    ground (arith, eqb_iff y year, eqb_iff m month)

module _ (r : Reading) where
  open r use {modulus, value}

  choice :
      (x y a b : DateTerm)
      → value (select (is_equal x y) a b) ≡ (if eqb (value x) (value y) then value a else value b)
  choice x y a b = elim (Bool-cases (eqb (value x) (value y))) [
    | inl e ↦ ground (arith, r.zero_difference x y, r.selected (is_equal x y) a b)
    | inr e ↦ ground (arith, r.zero_difference x y, r.not_selected (is_equal x y) a b)
  ]

  choice_both :
      (x y z w a b : DateTerm)
      → value (select (conjunction (is_equal x y) (is_equal z w)) a b) ≡ (
          if eqb (value x) (value y)
          then if eqb (value z) (value w) then value a else value b
          else value b)
  choice_both x y z w a b =
      let first = r.zero_difference x y in
      let second = r.zero_difference z w in
      let product = r.conjunctions (is_equal x y) (is_equal z w) in
      let yes = r.selected (conjunction (is_equal x y) (is_equal z w)) a b in
      let no = r.not_selected (conjunction (is_equal x y) (is_equal z w)) a b in
      elim (Bool-cases (eqb (value x) (value y))) [
        | inl e ↦ elim (Bool-cases (eqb (value z) (value w))) [
          | inl f ↦
              let u : value (is_equal x y) ≡ 1 = first ∙ simp e refl in
              let v : value (is_equal z w) ≡ 1 = second ∙ simp f refl in
              simp (e, f) (yes (product (omega arith) (omega arith) ∙ rw (u, v) refl))
          | inr f ↦
              let u : value (is_equal x y) ≡ 1 = first ∙ simp e refl in
              let v : value (is_equal z w) ≡ 0 = second ∙ simp f refl in
              simp (e, f) (no (product (omega arith) (omega arith) ∙ rw (u, v) refl))
        ]
        | inr e ↦ elim (Bool-cases (eqb (value z) (value w))) [
          | inl f ↦
              let u : value (is_equal x y) ≡ 0 = first ∙ simp e refl in
              let v : value (is_equal z w) ≡ 1 = second ∙ simp f refl in
              simp e (no (product (omega arith) (omega arith) ∙ rw (u, v) refl))
          | inr f ↦
              let u : value (is_equal x y) ≡ 0 = first ∙ simp e refl in
              let v : value (is_equal z w) ≡ 0 = second ∙ simp f refl in
              simp e (no (product (omega arith) (omega arith) ∙ rw (u, v) refl))
        ]
      ]

  -- On a date of the calendar whose year is past 18 and fits the field, the assertions hold exactly
  -- if the month and the day of birth are in range and the birth is not after the same day eighteen
  -- years before.
  pub adult_iff :
      (year month day : ℕ)
      → year < modulus
      → 31 < modulus
      → month ≤ 12
      → day ≤ 31
      → All (λ p. value p.0 ≤ value p.1) (define_identity year month day) ↔ (
          (1 ≤ value age_month)
          × (value age_month ≤ 12)
          × (1 ≤ value age_day)
          × (value age_day ≤ 31)
          × IsNotAfter (value age_year) (value age_month) (value age_day) (year - 18) month day)
  unfolding define_identity
  adult_iff year month day year_fits small month_fits day_fits =
      let min = r.numbers (year - 18) (omega arith) in
      let m = r.numbers month (omega arith) in
      let d = r.numbers day (omega arith) in
      let one = r.numbers 1 (omega arith) in
      let twelve = r.numbers 12 (omega arith) in
      let most = r.numbers 31 (omega arith) in
      let chosen_month = choice age_year (number (year - 18)) (number month) (number 12) in
      let chosen_day =
        choice_both age_year (number (year - 18)) age_month (number month) (number day)
          (number 31) in
      let both =
        Asserted-IsAdult (value age_year) (value age_month) (value age_day) (year - 18) month day
          (value (select (is_equal age_year (number (year - 18))) (number month) (number 12)))
          (value (
            select
              (conjunction (is_equal age_year (number (year - 18)))
                (is_equal age_month (number month)))
              (number day) (number 31)))
          month_fits day_fits (chosen_month ∙ rw (min, m, twelve) refl)
          (chosen_day ∙ rw (min, m, d, most) refl) in
      (
        λ (a, (b, (c, (e, (f, (g, (h, _))))))). both.0 (
          omega (arith, a, min),
          omega (arith, b, one),
          omega (arith, c, twelve),
          e,
          omega (arith, f, one),
          omega (arith, g, most),
          h,
        ),
        λ adult.
            let (a, b, c, e, f, g, h) = both.1 adult in
            (
              omega (arith, a, min),
              (
                omega (arith, b, one),
                (
                  omega (arith, c, twelve),
                  (e, (omega (arith, f, one), (omega (arith, g, most), (h, tt)))),
                ),
              ),
            ),
      )
