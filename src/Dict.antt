-- ===== src/Dict.antt =====
-- Go's `map[string]V` as an association list with at most one entry for a key.
pub mod Entries
use digital_identity_system.Prelude.{
  String, ◌≡◌, subst, inl, inr, Bool, true, false, Bool-cases, Option, none, some, List, [], ◌∷◌,
  arith, ◌==◌, eq_iff, ◌||◌, if◌then◌else◌,
}

abbrev pub Dict {ℓ} : Type ℓ → Type ℓ
Dict V = List (String × V)

module _ {ℓ} {V : Type ℓ} where
  unfoldable pub get : String → Dict V → Option V
  get k [] = none
  get k ((j, v) ∷ m) = if j == k then some v else get k m

  -- `delete(m, k)`
  unfoldable pub remove : String → Dict V → Dict V
  remove k [] = []
  remove k ((j, v) ∷ m) = let rest = remove k m in if j == k then rest else (j, v) ∷ rest

  -- `m[k] = v`
  unfoldable pub put : String → V → Dict V → Dict V
  unfolding remove
  put k v m = (k, v) ∷ remove k m

  -- `_, ok := m[k]`
  unfoldable pub has : String → Dict V → Bool
  unfolding get
  has k m = elim (get k m) [ none ↦ false | some v ↦ true ]

  pub get-remove :
      (k j : String) (m : Dict V) → get j (remove k m) ≡ (if k == j then none else get j m)
  unfolding get remove
  get-remove k j [] = ground arith
  get-remove k j ((i, v) ∷ m) = ground (arith, get-remove k j m, eq_iff i k, eq_iff i j, eq_iff k j)

  pub get-put :
      (k : String) (v : V) (j : String) (m : Dict V)
      → get j (put k v m) ≡ (if k == j then some v else get j m)
  unfolding put get
  get-put k v j m = ground (arith, get-remove k j m, eq_iff k j)

  pub has-put :
      (k : String) (v : V) (j : String) (m : Dict V) → has j (put k v m) ≡ (k == j || has j m)
  unfolding has
  has-put k v j m = ground (arith, get-put k v j m)

  pub has-remove :
      (k j : String) (m : Dict V) → has j (remove k m) ≡ (if k == j then false else has j m)
  unfolding has
  has-remove k j m = ground (arith, get-remove k j m)

  pub has_of_get : (k : String) (m : Dict V) {v : V} → get k m ≡ some v → has k m ≡ true
  unfolding has
  has_of_get k m e = rw (e, has)

  pub get_of_has : (k : String) (m : Dict V) → has k m ≡ true → (v : V) × (get k m ≡ some v)
  unfolding has
  get_of_has k m h = ground arith

module _ {ℓ} {V : Type ℓ} where
  -- Every entry satisfies the predicate.
  abbrev pub Each : (String → V → Type 0) → Dict V → Type ℓ
  Each P m = (k : String) (v : V) → get k m ≡ some v → P k v

  pub Each-put :
      (P : String → V → Type 0) (k : String) (v : V) (m : Dict V)
      → P k v
      → Each P m
      → Each P (put k v m)
  Each-put P k v m new old j w found = elim (Bool-cases (k == j)) [
    | inl same ↦
        subst (λ i. P i w) ((eq_iff k j).0 same)
          (subst (P k) (cc (simp (get-put k v j m, same) at found)) new)
    | inr other ↦ old j w (simp (get-put k v j m, other) at found)
  ]

  pub Each-remove :
      (P : String → V → Type 0) (k : String) (m : Dict V) → Each P m → Each P (remove k m)
  Each-remove P k m old j w found = elim (Bool-cases (k == j)) [
    | inl same ↦ absurd (cc (simp (get-remove k j m, same) at found))
    | inr other ↦ old j w (simp (get-remove k j m, other) at found)
  ]
