-- ===== src/Dict/Entries.antt =====
-- The entries of a map with at most one entry for a key, as a list.
use mathlib.Core.List.{Memᴰ}
use digital_identity_system.Prelude.{
  String, ◌≡◌, ap, inl, inr, false, Bool-cases, some, List, [], ◌∷◌, ◌==◌, arith, map, eq_iff,
}
use digital_identity_system.Dict.{Dict, get, put, remove, get-put, get-remove}

module _ {ℓ} {V : Type ℓ} where
  -- Every entry is the one that a lookup finds.
  abbrev pub IsMap : Dict V → Type ℓ
  IsMap m = (k : String) (v : V) → Memᴰ (k, v) m → get k m ≡ some v

  -- The values, in the order of the entries.
  abbrev pub values : Dict V → List V
  values m = map (λ p. p.1) m

  Memᴰ-remove :
      (k : String) (m : Dict V) (j : String) (v : V)
      → Memᴰ (j, v) (remove k m)
      → Memᴰ (j, v) m × ((k == j) ≡ false)
  unfolding remove
  Memᴰ-remove k [] j v h = elim h [ ]
  Memᴰ-remove k ((i, w) ∷ m) j v h = elim (Bool-cases (i == k)) [
    | inl same ↦
        let (there, other) = Memᴰ-remove k m j v (simp same at h) in (Memᴰ.tail there, other)
    | inr other ↦ split other (Memᴰ-remove k m j v) (simp other at h)
  ]
    where
      split :
          (i == k) ≡ false
          → (Memᴰ (j, v) (remove k m) → Memᴰ (j, v) m × ((k == j) ≡ false))
          → Memᴰ (j, v) ((i, w) ∷ remove k m)
          → Memᴰ (j, v) ((i, w) ∷ m) × ((k == j) ≡ false)
      split other later (Memᴰ.head e) =
          let own : j ≡ i = ap (λ p. p.0) e in (Memᴰ.head e, ground (arith, eq_iff i k, eq_iff k j))
      split other later (Memᴰ.tail rest) =
          let (there, differ) = later rest in (Memᴰ.tail there, differ)

  pub put-IsMap : (k : String) (v : V) (m : Dict V) → IsMap m → IsMap (put k v m)
  unfolding put
  put-IsMap k v m unique j w (Memᴰ.head e) =
      let key : j ≡ k = ap (λ p. p.0) e in
      let value : w ≡ v = ap (λ p. p.1) e in ground (arith, get-put k v j m, eq_iff k j)
  put-IsMap k v m unique j w (Memᴰ.tail h) =
      let (there, other) = Memᴰ-remove k m j w h in
      ground (arith, get-put k v j m, unique j w there)

  pub remove-IsMap : (k : String) (m : Dict V) → IsMap m → IsMap (remove k m)
  remove-IsMap k m unique j w h =
      let (there, other) = Memᴰ-remove k m j w h in
      simp (get-remove k j m, other) (unique j w there)

  pub Memᴰ_of_get : (k : String) (v : V) (m : Dict V) → get k m ≡ some v → Memᴰ (k, v) m
  unfolding get
  Memᴰ_of_get k v [] h = absurd (cc h)
  Memᴰ_of_get k v ((i, w) ∷ m) h = elim (Bool-cases (i == k)) [
    | inl same ↦
        let value : w ≡ v = cc (simp same at h) in Memᴰ.head (cc ((eq_iff i k).0 same, value))
    | inr other ↦ Memᴰ.tail (Memᴰ_of_get k v m (simp other at h))
  ]

  pub Memᴰ-values : (k : String) (v : V) (m : Dict V) → Memᴰ (k, v) m → Memᴰ v (values m)
  Memᴰ-values k v [] h = elim h [ ]
  Memᴰ-values k v ((i, w) ∷ m) (Memᴰ.head e) = Memᴰ.head (ap (λ p. p.1) e)
  Memᴰ-values k v ((i, w) ∷ m) (Memᴰ.tail h) = Memᴰ.tail (Memᴰ-values k v m h)

  pub key_of_value : (v : V) (m : Dict V) → Memᴰ v (values m) → (k : String) × Memᴰ (k, v) m
  key_of_value v [] h = elim h [ ]
  key_of_value v ((i, w) ∷ m) (Memᴰ.head e) = (i, Memᴰ.head (cc e))
  key_of_value v ((i, w) ∷ m) (Memᴰ.tail h) =
      let (k, there) = key_of_value v m h in (k, Memᴰ.tail there)
