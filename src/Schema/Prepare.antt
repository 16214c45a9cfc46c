-- ===== src/Schema/Prepare.antt =====
-- Which schemas `prepare` accepts (system/pkg/zkp/schema.go), and what it makes of them.
use digital_identity_system.Prelude.{
  String, ◌≡◌, refl, sym, ap, ◌∙◌, ◌↔◌, ◌⊎◌, inl, inr, true, false, not, List, [], ◌∷◌, map, ◌==◌,
  is_empty, Result, ok, arith, eq_iff, All, Bool-cases, >>=-eq-ok, Result-cases,
}
use digital_identity_system.Dict
use digital_identity_system.Dict.{Dict, get-put, has-put}
use digital_identity_system.Schema.{
  FieldDefinition, ConstraintDefinition, SchemaDefinition, SchemaError, visible, typed, prepared,
  prepare_fields, check_names, check_constraint, check_constraints, prepare,
}

-- The name is not the name of a field of the list.
abbrev pub IsFresh : String → List FieldDefinition → Type 0
IsFresh name fields = All (λ f. (f.name == name) ≡ false) fields

-- Every field has a name, and no name occurs twice.
abbrev pub HasDistinctNames : List FieldDefinition → Type 0
HasDistinctNames [] = Unit
HasDistinctNames (f ∷ fs) = ((f.name == "") ≡ false) × IsFresh f.name fs × HasDistinctNames fs

-- The name is declared by a field of the list.
abbrev pub IsDeclared : String → List FieldDefinition → Type 0
IsDeclared name [] = ⊥
IsDeclared name (f ∷ fs) = ((f.name == name) ≡ true) ⊎ IsDeclared name fs

abbrev pub IsWellFormed : List FieldDefinition → ConstraintDefinition → Type 0
IsWellFormed fields c =
    ((c.type == "") ≡ false)
    × (is_empty c.fields ≡ false)
    × All (λ name. IsDeclared name fields) c.fields

-- What a schema has to satisfy, in words that do not mention the loops of `prepare`.
abbrev pub IsAcceptable : SchemaDefinition → Type 0
IsAcceptable s =
    (is_empty s.fields ≡ false)
    × HasDistinctNames s.fields
    × All (IsWellFormed s.fields) s.constraints

-- The index that the loop ends with, from the index so far.
unfoldable pub index_of : Dict FieldDefinition → List FieldDefinition → Dict FieldDefinition
index_of index [] = index
index_of index (f ∷ fs) = index_of (Dict.put f.name (prepared f) index) fs

abbrev NotIndexed : Dict FieldDefinition → List FieldDefinition → Type 0
NotIndexed index = All (λ f. Dict.has f.name index ≡ false)

module _ (f : FieldDefinition) (index : Dict FieldDefinition) where
  NotIndexed-put_inv :
      (fs : List FieldDefinition)
      → NotIndexed (Dict.put f.name (prepared f) index) fs
      → IsFresh f.name fs × NotIndexed index fs
  NotIndexed-put_inv [] h = (tt, tt)
  NotIndexed-put_inv (g ∷ gs) h =
      let (fresh, apart) = NotIndexed-put_inv gs h.1 in
      let e = has-put f.name (prepared f) g.name index in
      (
        (ground (arith, e, h.0, eq_iff g.name f.name, eq_iff f.name g.name), fresh),
        (ground (arith, e, h.0), apart),
      )

  NotIndexed-put :
      (fs : List FieldDefinition)
      → IsFresh f.name fs
      → NotIndexed index fs
      → NotIndexed (Dict.put f.name (prepared f) index) fs
  NotIndexed-put [] p h = tt
  NotIndexed-put (g ∷ gs) p h = (
    ground (
      arith,
      has-put f.name (prepared f) g.name index,
      p.0,
      h.0,
      eq_iff g.name f.name,
      eq_iff f.name g.name,
    ),
    NotIndexed-put gs p.1 h.1,
  )

abbrev Outcome : Type 0
Outcome = Result SchemaError (List FieldDefinition × Dict FieldDefinition)

-- One round of the loop that succeeds.
prepare_fields-cons :
    (index : Dict FieldDefinition) (f : FieldDefinition) (fs : List FieldDefinition)
    (r : List FieldDefinition × Dict FieldDefinition)
    → prepare_fields index (f ∷ fs) ≡ ok r
    → ((f.name == "") ≡ false)
      × (Dict.has f.name index ≡ false)
      × (q : List FieldDefinition × Dict FieldDefinition) × (prepare_fields
            (Dict.put f.name (prepared f) index)
            fs
          ≡ ok q)
      × (r ≡ (prepared f ∷ q.0, q.1))
unfolding prepare_fields
prepare_fields-cons index f fs r h =
    elim (Result-cases (prepare_fields (Dict.put f.name (prepared f) index) fs)) [
      | inl (q, e) ↦ (ground (arith, e), ground (arith, e), q, e, ground (arith, e))
      | inr (x, e) ↦ absurd (ground (arith, e))
    ]

prepare_fields_sound :
    (index : Dict FieldDefinition) (fs : List FieldDefinition)
    (r : List FieldDefinition × Dict FieldDefinition)
    → prepare_fields index fs ≡ ok r
    → HasDistinctNames fs × NotIndexed index fs × (r ≡ (map prepared fs, index_of index fs))
unfolding index_of
prepare_fields_sound index [] r h = (tt, tt, (unfold prepare_fields in cc))
prepare_fields_sound index (f ∷ fs) r h =
    let (named, absent, q, e, same) = prepare_fields-cons index f fs r h in
    let (distinct, apart, here) =
      prepare_fields_sound (Dict.put f.name (prepared f) index) fs q e in
    let (fresh, rest) = NotIndexed-put_inv f index fs apart in
    ((named, fresh, distinct), (absent, rest), cc)

prepare_fields_complete :
    (index : Dict FieldDefinition) (fs : List FieldDefinition)
    → HasDistinctNames fs
    → NotIndexed index fs
    → prepare_fields index fs ≡ ok (map prepared fs, index_of index fs)
unfolding prepare_fields index_of
prepare_fields_complete index [] d h = refl
prepare_fields_complete index (f ∷ fs) d h =
    rw
      (
        d.0,
        h.0,
        prepare_fields_complete (Dict.put f.name (prepared f) index) fs d.2
            (NotIndexed-put f index fs d.1 h.1),
      )
      refl

-- The index has the names of the fields, and those that it had.
has-index_of :
    (name : String) (index : Dict FieldDefinition) (fs : List FieldDefinition)
    → (Dict.has name (index_of index fs) ≡ true)
      ↔ ((Dict.has name index ≡ true) ⊎ IsDeclared name fs)
unfolding index_of
has-index_of name index [] = ground arith
has-index_of name index (f ∷ fs) = ground (
  arith,
  has-index_of name (Dict.put f.name (prepared f) index) fs,
  has-put f.name (prepared f) name index,
)

module _ (fs : List FieldDefinition) where
  IsDeclared-iff : (name : String) → (Dict.has name (index_of [] fs) ≡ true) ↔ IsDeclared name fs
  IsDeclared-iff name = (
    λ h. elim ((has-index_of name [] fs).0 h) [
      | inl e ↦ absurd (unfold Dict.has in cc)
      | inr d ↦ d
    ],
    λ d. (has-index_of name [] fs).1 (inr d),
  )

  check_names_iff :
      (names : List String)
      → (check_names (index_of [] fs) names ≡ ok tt) ↔ All (λ name. IsDeclared name fs) names
  unfolding check_names
  check_names_iff [] = (λ _. tt, λ _. refl)
  check_names_iff (name ∷ names) = ground (arith, check_names_iff names, IsDeclared-iff name)

  check_constraint_iff :
      (c : ConstraintDefinition) → (check_constraint (index_of [] fs) c ≡ ok tt) ↔ IsWellFormed fs c
  unfolding check_constraint
  check_constraint_iff c = ground (arith, check_names_iff c.fields)

  check_constraints_iff :
      (cs : List ConstraintDefinition)
      → (check_constraints (index_of [] fs) cs ≡ ok tt) ↔ All (IsWellFormed fs) cs
  unfolding check_constraints
  check_constraints_iff [] = (λ _. tt, λ _. refl)
  check_constraints_iff (c ∷ cs) = ground (arith, check_constraint_iff c, check_constraints_iff cs)

-- What an accepted schema becomes.
unfoldable pub prepared_schema : SchemaDefinition → SchemaDefinition
prepared_schema s = record s { fields = map prepared s.fields; field_index = index_of [] s.fields }

NotIndexed-nil : (fs : List FieldDefinition) → NotIndexed [] fs
NotIndexed-nil [] = tt
NotIndexed-nil (f ∷ fs) = ((unfold Dict.has in refl), NotIndexed-nil fs)

prepare_sound :
    (s t : SchemaDefinition) → prepare s ≡ ok t → IsAcceptable s × (t ≡ prepared_schema s)
unfolding prepare prepared_schema
prepare_sound s t h = elim (Bool-cases (is_empty s.fields)) [
  | inl none_left ↦ absurd (cc (simp none_left at h))
  | inr some_left ↦
      let body = simp some_left at h in
      let (r, e, rest) = >>=-eq-ok (prepare_fields [] s.fields) _ body in
      let (u, checked, same) = >>=-eq-ok (check_constraints r.1 s.constraints) _ rest in
      let (distinct, _, shape) = prepare_fields_sound [] s.fields r e in
      (
        (
          some_left,
          distinct,
          (check_constraints_iff s.fields s.constraints).0 (ground (arith, checked, shape)),
        ),
        ground (arith, same, shape),
      )
]

prepare_complete :
    (s t : SchemaDefinition) → IsAcceptable s × (t ≡ prepared_schema s) → prepare s ≡ ok t
unfolding prepare prepared_schema
prepare_complete s t h =
    simp
      (
        h.0.0,
        prepare_fields_complete [] s.fields h.0.1 (NotIndexed-nil s.fields),
        (check_constraints_iff s.fields s.constraints).1 h.0.2,
      )
      (rw h.1 refl)

-- `prepare` accepts a schema exactly if it has a field, every field has a name, no name occurs
-- twice, and every constraint has a type and a non-empty list of declared fields; the result is
-- then the schema with every field prepared and the index of its fields.
pub prepare-eq-ok_iff :
    (s t : SchemaDefinition) → (prepare s ≡ ok t) ↔ (IsAcceptable s × (t ≡ prepared_schema s))
prepare-eq-ok_iff s t = (prepare_sound s t, prepare_complete s t)

-- A field after `prepare`: it has a type, and is secret exactly if it is not public.
abbrev pub IsPrepared : FieldDefinition → Type 0
IsPrepared f = ((f.type == "") ≡ false) × (f.secret ≡ not f.public)

visible_lem :
    (f : FieldDefinition)
    → ((visible f).type ≡ f.type)
      × ((visible f).secret ≡ not f.public)
      × ((visible f).public ≡ f.public)
unfolding visible
visible_lem f = elim (Bool-cases f.public) [
  | inl shown ↦ (simp shown, simp shown, simp shown)
  | inr hidden ↦ elim (Bool-cases f.secret) [
    | inl e ↦ (simp (hidden, e), simp (hidden, e), simp (hidden, e))
    | inr e ↦ (simp (hidden, e), simp (hidden, e), simp (hidden, e))
  ]
]

typed_lem :
    (f : FieldDefinition)
    → (((typed f).type == "") ≡ false)
      × ((typed f).secret ≡ f.secret)
      × ((typed f).public ≡ f.public)
unfolding typed
typed_lem f = elim (Bool-cases (f.type == "")) [
  | inl e ↦ (simp e, simp e, simp e)
  | inr e ↦ (simp (e, e), simp e, simp e)
]

prepared-IsPrepared : (f : FieldDefinition) → IsPrepared (prepared f)
unfolding prepared
prepared-IsPrepared f =
    let (type, secret, public) = visible_lem f in
    let (named, secret', public') = typed_lem (visible f) in
    (named, secret' ∙ secret ∙ ap not (sym (public' ∙ public)))

map-prepared-IsPrepared : (fs : List FieldDefinition) → All IsPrepared (map prepared fs)
map-prepared-IsPrepared [] = tt
map-prepared-IsPrepared (f ∷ fs) = (prepared-IsPrepared f, map-prepared-IsPrepared fs)

-- Every field of an accepted schema has a type and exactly one visibility.
pub prepare-IsPrepared : (s t : SchemaDefinition) → prepare s ≡ ok t → All IsPrepared t.fields
unfolding prepared_schema
prepare-IsPrepared s t h = rw ((prepare-eq-ok_iff s t).0 h).1 (map-prepared-IsPrepared s.fields)
