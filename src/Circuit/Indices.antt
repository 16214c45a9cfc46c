-- ===== src/Circuit/Indices.antt =====
-- The index maps of a circuit, against the orders that they are built from.
use digital_identity_system.Prelude.{
  ℕ, suc, ◌+◌, ◌<◌, String, ◌≡◌, refl, true, false, none, some, List, [], ◌∷◌, ◌==◌, length,
  get_elem?, get_elem?-lt, arith, eq_iff, Bool-cases, inl, inr, subst, ap, ◌∙◌,
}
use digital_identity_system.Dict
use digital_identity_system.Dict.{Dict, get-put}
use digital_identity_system.Schema.Orders.{listed, HasNoRepeat}
use digital_identity_system.Circuit.Build.{fill_index}

module _ (name : String) where
  get-fill_index_other :
      (i : ℕ) (names : List String) (index : Dict ℕ)
      → listed name names ≡ false
      → Dict.get name (fill_index i names index) ≡ Dict.get name index
  unfolding fill_index listed
  get-fill_index_other i [] index h = refl
  get-fill_index_other i (x ∷ xs) index h =
      ground (arith, get-fill_index_other (suc i) xs (Dict.put x i index), get-put x i name index)

  -- A listed name is indexed by its position in the order.
  pub get-fill_index :
      (i : ℕ) (names : List String) (index : Dict ℕ)
      → HasNoRepeat names
      → listed name names ≡ true
      → (p : ℕ) × (Dict.get name (fill_index i names index) ≡ some (i + p))
        × (get_elem? names p ≡ some name)
  unfolding fill_index listed
  get-fill_index i [] index distinct h = absurd (cc h)
  get-fill_index i (x ∷ xs) index distinct h = elim (Bool-cases (x == name)) [
    | inl same ↦
        let e = (eq_iff x name).0 same in
        let fresh = subst (λ n. listed n xs ≡ false) e distinct.0 in
        (
          0,
          get-fill_index_other (suc i) xs (Dict.put x i index) fresh
              ∙ get-put x i name index
              ∙ (rw same (ap some (omega arith))),
          ap some e,
        )
    | inr other ↦
        let (p, found, at) =
          get-fill_index (suc i) xs (Dict.put x i index) distinct.1 (rw other at h) in
        (suc p, found ∙ ap some (omega arith), at)
  ]

-- In a list without repetition: a listed name has the index of its position, which is in range.
pub order_index :
    (name : String) (names : List String)
    → HasNoRepeat names
    → listed name names ≡ true
    → (p : ℕ) × (Dict.get name (fill_index 0 names []) ≡ some p)
      × (get_elem? names p ≡ some name)
      × (p < length names)
order_index name names distinct h =
    let (p, found, at) = get-fill_index name 0 names [] distinct h in
    (p, found ∙ ap some (omega arith), at, get_elem?-lt names p at)

pub order_index_none :
    (name : String) (names : List String)
    → listed name names ≡ false
    → Dict.get name (fill_index 0 names []) ≡ none
order_index_none name names h = get-fill_index_other name 0 names [] h ∙ (unfold Dict.get in refl)

-- The converse: what the index holds is a position of the name.
pub order_index_at :
    (name : String) (names : List String) (p : ℕ)
    → HasNoRepeat names
    → Dict.get name (fill_index 0 names []) ≡ some p
    → get_elem? names p ≡ some name
order_index_at name names p distinct h = elim (Bool-cases (listed name names)) [
  | inl e ↦
      let (q, found, at, _) = order_index name names distinct e in
      let same : p ≡ q = cc in rw same at
  | inr e ↦ absurd (cc (order_index_none name names e))
]
