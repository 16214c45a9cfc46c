-- ===== src/Schema/Orders.antt =====
-- The secret and the public order of a schema's fields (system/pkg/zkp/schema.go).
use digital_identity_system.Prelude.{
  ◌+◌, String, ◌≡◌, refl, Bool, true, false, not, ◌||◌, ◌&&◌, List, [], ◌∷◌, ◌==◌, if◌then◌else◌,
  length, arith, eq_iff, Bool-cases, inl, inr, subst, map, ◌↔◌, ok, ◌∙◌,
}
use digital_identity_system.Schema.{
  FieldDefinition, SchemaDefinition, visible, typed, prepared, prepare, secret_names, public_names,
  secret_field_order, public_field_order,
}
use digital_identity_system.Schema.Prepare.{
  IsFresh, HasDistinctNames, IsDeclared, prepared_schema, prepare-eq-ok_iff,
}

-- A name occurs in a list of names.
unfoldable pub listed : String → List String → Bool
listed name [] = false
listed name (x ∷ xs) = x == name || listed name xs

-- A field of the list has the name, and is public or not as `shown` says.
unfoldable pub declares : Bool → String → List FieldDefinition → Bool
declares shown name [] = false
declares shown name (f ∷ fs) =
    (if f.public then shown else not shown) && (f.name == name) || declares shown name fs

-- No name occurs twice.
abbrev pub HasNoRepeat : List String → Type 0
HasNoRepeat [] = Unit
HasNoRepeat (x ∷ xs) = (listed x xs ≡ false) × HasNoRepeat xs

pub listed-secret_names :
    (name : String) (fs : List FieldDefinition)
    → listed name (secret_names fs) ≡ declares false name fs
unfolding listed declares secret_names
listed-secret_names name [] = refl
listed-secret_names name (f ∷ fs) = elim (Bool-cases f.public) [
  | inl e ↦ simp (e, listed-secret_names name fs)
  | inr e ↦ simp (e, listed-secret_names name fs)
]

pub listed-public_names :
    (name : String) (fs : List FieldDefinition)
    → listed name (public_names fs) ≡ declares true name fs
unfolding listed declares public_names
listed-public_names name [] = refl
listed-public_names name (f ∷ fs) = elim (Bool-cases f.public) [
  | inl e ↦ simp (e, listed-public_names name fs)
  | inr e ↦ simp (e, listed-public_names name fs)
]

-- Every field stands in one of the two orders.
length-names :
    (fs : List FieldDefinition) → length (secret_names fs) + length (public_names fs) ≡ length fs
unfolding secret_names public_names
length-names [] = refl
length-names (f ∷ fs) = elim (Bool-cases f.public) [
  | inl e ↦ simp e (omega (arith, length-names fs))
  | inr e ↦ simp e (omega (arith, length-names fs))
]

declares_fresh :
    (shown : Bool) (name : String) (fs : List FieldDefinition)
    → IsFresh name fs
    → declares shown name fs ≡ false
unfolding declares
declares_fresh shown name [] h = refl
declares_fresh shown name (f ∷ fs) h = ground (arith, h.0, declares_fresh shown name fs h.1)

-- Of fields with distinct names, none is both public and secret.
pub declares_apart :
    (name : String) (fs : List FieldDefinition)
    → HasDistinctNames fs
    → (declares true name fs && declares false name fs) ≡ false
unfolding declares
declares_apart name [] h = refl
declares_apart name (f ∷ fs) h = elim (Bool-cases (f.name == name)) [
  | inl same ↦
      let fresh = subst (λ n. IsFresh n fs) ((eq_iff f.name name).0 same) h.1 in
      ground (arith, same, declares_fresh true name fs fresh, declares_fresh false name fs fresh)
  | inr other ↦ ground (arith, other, declares_apart name fs h.2)
]

pub declares_either :
    (name : String) (fs : List FieldDefinition)
    → ((declares true name fs || declares false name fs) ≡ true) ↔ IsDeclared name fs
unfolding declares
declares_either name [] = ground arith
declares_either name (f ∷ fs) = ground (arith, declares_either name fs)

pub HasNoRepeat-secret_names :
    (fs : List FieldDefinition) → HasDistinctNames fs → HasNoRepeat (secret_names fs)
unfolding secret_names
HasNoRepeat-secret_names [] h = tt
HasNoRepeat-secret_names (f ∷ fs) h = elim (Bool-cases f.public) [
  | inl e ↦ simp e (HasNoRepeat-secret_names fs h.2)
  | inr e ↦ simp e (
    listed-secret_names f.name fs ∙ declares_fresh false f.name fs h.1,
    HasNoRepeat-secret_names fs h.2,
  )
]

pub HasNoRepeat-public_names :
    (fs : List FieldDefinition) → HasDistinctNames fs → HasNoRepeat (public_names fs)
unfolding public_names
HasNoRepeat-public_names [] h = tt
HasNoRepeat-public_names (f ∷ fs) h = elim (Bool-cases f.public) [
  | inl e ↦ simp e (
    listed-public_names f.name fs ∙ declares_fresh true f.name fs h.1,
    HasNoRepeat-public_names fs h.2,
  )
  | inr e ↦ simp e (HasNoRepeat-public_names fs h.2)
]

-- What `prepare` does to a field leaves its name.
typed_name : (f : FieldDefinition) → (typed f).name ≡ f.name
unfolding typed
typed_name f = elim (Bool-cases (f.type == "")) [ inl e ↦ simp e | inr e ↦ simp e ]

visible_name : (f : FieldDefinition) → (visible f).name ≡ f.name
unfolding visible
visible_name f = elim (Bool-cases f.public) [
  | inl e ↦ simp e
  | inr e ↦ elim (Bool-cases f.secret) [ inl k ↦ simp (e, k) | inr k ↦ simp (e, k) ]
]

prepared_name : (f : FieldDefinition) → (prepared f).name ≡ f.name
unfolding prepared
prepared_name f = typed_name (visible f) ∙ visible_name f

IsFresh-prepared :
    (name : String) (fs : List FieldDefinition) → IsFresh name fs → IsFresh name (map prepared fs)
IsFresh-prepared name [] h = tt
IsFresh-prepared name (f ∷ fs) h = (rw (prepared_name f) h.0, IsFresh-prepared name fs h.1)

HasDistinctNames-prepared :
    (fs : List FieldDefinition) → HasDistinctNames fs → HasDistinctNames (map prepared fs)
HasDistinctNames-prepared [] h = tt
HasDistinctNames-prepared (f ∷ fs) h =
    rw (prepared_name f) (h.0, IsFresh-prepared f.name fs h.1, HasDistinctNames-prepared fs h.2)

pub prepare-HasDistinctNames :
    (s t : SchemaDefinition) → prepare s ≡ ok t → HasDistinctNames t.fields
unfolding prepared_schema
prepare-HasDistinctNames s t h =
    let (accepted, same) = (prepare-eq-ok_iff s t).0 h in
    rw same (HasDistinctNames-prepared s.fields accepted.1)

-- In a schema that `prepare` returned, every declared name, and no other, stands in the secret
-- or in the public order, no name stands in both, neither order repeats a name, and the two
-- together are as long as the list of fields.
pub field_orders_partition :
    (s t : SchemaDefinition) (name : String)
    → prepare s ≡ ok t
    → (((listed name (public_field_order t) || listed name (secret_field_order t)) ≡ true)
        ↔ IsDeclared name t.fields)
      × ((listed name (public_field_order t) && listed name (secret_field_order t)) ≡ false)
      × HasNoRepeat (secret_field_order t)
      × HasNoRepeat (public_field_order t)
      × (length (secret_field_order t) + length (public_field_order t) ≡ length t.fields)
unfolding secret_field_order public_field_order
field_orders_partition s t name h =
    let distinct = prepare-HasDistinctNames s t h in
    (
      simp (listed-secret_names, listed-public_names) (declares_either name t.fields),
      simp (listed-secret_names, listed-public_names) (declares_apart name t.fields distinct),
      HasNoRepeat-secret_names t.fields distinct,
      HasNoRepeat-public_names t.fields distinct,
      length-names t.fields,
    )
