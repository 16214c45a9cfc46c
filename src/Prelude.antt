-- ===== src/Prelude.antt =====
-- The names that the modules of this library share: the libraries', passed on, and the
-- helpers of two children. `Result` stands for a Go pair `(value, error)`.
mod Tests
mod Lists
pub mod Int
pub use Tests.*
pub use Lists.*
pub use Prim.Native.Nat.{ℕ, zero, suc, ◌+◌, ◌-◌, ◌*◌, ◌/◌, ◌%◌, ◌^◌, ◌≤◌, ◌<◌, min}
pub use Prim.Native.String.{String}
pub use mathlib.Core.Path.{◌≡◌, refl, sym, ap, ◌∙◌, subst}
pub use mathlib.Core.Logic.{◌≢◌, ◌↔◌, ◌⊎◌, inl, inr}
pub use mathlib.Core.Bool.{Bool, true, false, not, ◌&&◌, ◌||◌}
pub use mathlib.Core.Option.{Option, none, some}
pub use mathlib.Core.List.{List, [], ◌∷◌, ◌++◌, map}
pub use native.Mathlib.Omega.{arith}
pub use text.Mathlib.Text.{◌==◌}
pub use text.Mathlib.TextEquality.{eq_iff}
pub use text.Mathlib.TextPositions.{eq_refl}

pub data Result {ℓ} (Failure : Type 0) (A : Type ℓ) : Type ℓ where
  err : Failure → Result Failure A
  ok : A → Result Failure A

module _ {ℓ} {Failure : Type 0} {A : Type ℓ} where
  -- A value, or the failure that stands for its absence.
  abbrev pub or_err : Option A → Failure → Result Failure A
  or_err (some a) why = ok a
  or_err none why = err why

-- `if !test { return why }`
abbrev pub guard : {Failure : Type 0} → Bool → Failure → Result Failure (Unit {0})
guard test why = if test then ok tt else err why

module _ {ℓ κ} {Failure : Type 0} {A : Type ℓ} {B : Type κ} where
  infixl 5 ◌>>=◌ ◌>>◌
  abbrev pub ◌>>=◌ : Result Failure A → (A → Result Failure B) → Result Failure B
  err why >>= next = err why
  ok a >>= next = next a

  abbrev pub ◌>>◌ : Result Failure A → Result Failure B → Result Failure B
  first >> second = first >>= λ _. second

  -- A chain that succeeds has succeeded at each of its steps.
  pub >>=-eq-ok :
      (r : Result Failure A) (next : A → Result Failure B) {b : B}
      → (r >>= next) ≡ ok b
      → (a : A) × (r ≡ ok a) × (next a ≡ ok b)
  >>=-eq-ok (err why) next done = absurd (cc done)
  >>=-eq-ok (ok a) next done = (a, refl, done)

pub not-eq-true : (b : Bool) → not b ≡ true → b ≡ false
not-eq-true b h = ground arith

pub Result-cases {ℓ} :
    {E : Type 0} {A : Type ℓ} (r : Result E A) → ((a : A) × (r ≡ ok a)) ⊎ ((e : E) × (r ≡ err e))
Result-cases (ok a) = inl (a, refl)
Result-cases (err e) = inr (e, refl)

pub or_err-eq-ok {ℓ} :
    {E : Type 0} {A : Type ℓ} (o : Option A) (e : E) {a : A} → or_err o e ≡ ok a → o ≡ some a
or_err-eq-ok none e h = absurd (cc h)
or_err-eq-ok (some a) e h = cc

-- A chain that fails has failed at one of its steps.
pub >>=-eq-err {ℓ κ} :
    {Failure : Type 0} {A : Type ℓ} {B : Type κ} (r : Result Failure A)
    (next : A → Result Failure B) {why : Failure}
    → (r >>= next) ≡ err why
    → (r ≡ err why) ⊎ ((a : A) × (r ≡ ok a) × (next a ≡ err why))
>>=-eq-err (err other) next failed = inl (cc failed)
>>=-eq-err (ok a) next failed = inr (a, refl, failed)

pub guard-eq-ok :
    {Failure : Type 0} (test : Bool) (why : Failure) → guard test why ≡ ok tt → test ≡ true
guard-eq-ok true why done = refl
guard-eq-ok false why done = absurd (cc done)
