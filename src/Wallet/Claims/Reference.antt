-- ===== src/Wallet/Claims/Reference.antt =====
-- The loops of internal/app/handlers/zkp_prove.go against a lookup by name.
use digital_identity_system.Prelude.{
  String, ◌≡◌, ◌↔◌, refl, inl, inr, Bool, true, false, not, ◌&&◌, ◌||◌, Option, none, some, List,
  [], ◌∷◌, ◌==◌, if◌then◌else◌, All, arith, eq_iff, Bool-cases,
}
use digital_identity_system.Dict
use digital_identity_system.Dict.{Dict, get-put}
use digital_identity_system.Schema.{FieldDefinition}
use digital_identity_system.Wallet.Claims.{
  Claim, Object, Reader, is_bound, claims_of, resolve, assign_found, assign_field, assign_fields,
  assign_credential, assign_all, missing, disclose_field, disclose, public_inputs,
}

-- Whether a field of that name is in the list.
abbrev pub names : String → List FieldDefinition → Bool
names name [] = false
names name (field ∷ fields) = field.name == name || names name fields

-- Whether a public field of that name is in the list.
abbrev pub names_public : String → List FieldDefinition → Bool
names_public name [] = false
names_public name (field ∷ fields) =
    (field.name == name && field.public) || names_public name fields

abbrev or_else {ℓ} : {A : Type ℓ} → Option A → Option A → Option A
or_else none b = b
or_else (some a) b = some a

module _ {F : Type 0} where
  get-assign_found :
      (field_name : String) (found : Option (Claim F)) (m : Dict (Claim F)) (name : String)
      → Dict.get name (assign_found field_name found m)
        ≡ (if field_name == name then or_else found (Dict.get name m) else Dict.get name m)
  unfolding assign_found
  get-assign_found field_name none m name = ground (arith, eq_iff field_name name)
  get-assign_found field_name (some v) m name =
      ground (arith, get-put field_name v name m, eq_iff field_name name)

module _ {F : Type 0} (reader : Reader F) where
  abbrev resolve_in : Option (Option (Object F)) → String → Option (Claim F)
  resolve_in none name = none
  resolve_in (some claims) name = resolve reader claims name

  -- The specification: the value in the first credential that parses and gives one.
  abbrev pub first_value : List String → String → Option (Claim F)
  first_value [] name = none
  first_value (raw ∷ raws) name =
      or_else (resolve_in (claims_of reader raw) name) (first_value raws name)

  get-assign_field :
      (claims : Option (Object F)) (field : FieldDefinition) (m : Dict (Claim F)) (name : String)
      → Dict.get name (assign_field reader claims field m) ≡ (
          if field.name == name && not (is_bound name)
          then or_else (Dict.get name m) (resolve reader claims name)
          else Dict.get name m)
  unfolding assign_field Dict.has
  get-assign_field claims field m name = elim (Bool-cases (is_bound field.name)) [
    | inl bound ↦ ground (arith, eq_iff field.name name)
    | inr own ↦ elim (Bool-cases (Dict.has field.name m)) [
      | inl there ↦ ground (arith, eq_iff field.name name)
      | inr fresh ↦ ground (
        arith,
        get-assign_found field.name (resolve reader claims field.name) m name,
        eq_iff field.name name,
      )
    ]
  ]

  get-assign_fields :
      (claims : Option (Object F)) (fields : List FieldDefinition) (m : Dict (Claim F))
      (name : String)
      → Dict.get name (assign_fields reader claims fields m) ≡ (
          if names name fields && not (is_bound name)
          then or_else (Dict.get name m) (resolve reader claims name)
          else Dict.get name m)
  unfolding assign_fields
  get-assign_fields claims [] m name = refl
  get-assign_fields claims (field ∷ fields) m name = ground (
    arith,
    get-assign_fields claims fields (assign_field reader claims field m) name,
    get-assign_field claims field m name,
  )

  get-assign_credential :
      (fields : List FieldDefinition) (decoded : Option (Option (Object F))) (m : Dict (Claim F))
      (name : String)
      → Dict.get name (assign_credential reader fields decoded m) ≡ (
          if names name fields && not (is_bound name)
          then or_else (Dict.get name m) (resolve_in decoded name)
          else Dict.get name m)
  unfolding assign_credential
  get-assign_credential fields none m name = ground arith
  get-assign_credential fields (some claims) m name = get-assign_fields claims fields m name

  get-assign_all :
      (fields : List FieldDefinition) (raws : List String) (m : Dict (Claim F)) (name : String)
      → Dict.get name (assign_all reader fields raws m) ≡ (
          if names name fields && not (is_bound name)
          then or_else (Dict.get name m) (first_value raws name)
          else Dict.get name m)
  unfolding assign_all
  get-assign_all fields [] m name = ground arith
  get-assign_all fields (raw ∷ raws) m name = ground (
    arith,
    get-assign_all fields raws (assign_credential reader fields (claims_of reader raw) m) name,
    get-assign_credential fields (claims_of reader raw) m name,
  )

  -- The loop over credentials and fields gives a name, other than `aud` and `nonce`, a value exactly
  -- if a field has that name and some credential gives one, and then the value in the first
  -- credential that parses and gives one: at the top of the claims, else among the credential
  -- subject, else along the dots of the name. `aud` and `nonce` get none.
  pub assign_all_reference :
      (fields : List FieldDefinition) (raws : List String) (name : String)
      → Dict.get name (assign_all reader fields raws [])
        ≡ (if names name fields && not (is_bound name) then first_value raws name else none)
  unfolding Dict.get
  assign_all_reference fields raws name = get-assign_all fields raws [] name

module _ {F : Type 0} where
  get-disclose_field :
      (field : FieldDefinition) (m inputs : Dict (Claim F)) (name : String)
      → Dict.get name (disclose_field field m inputs) ≡ (
          if field.name == name && field.public
          then or_else (Dict.get name m) (Dict.get name inputs)
          else Dict.get name inputs)
  unfolding disclose_field
  get-disclose_field field m inputs name = ground (
    arith,
    get-assign_found field.name (Dict.get field.name m) inputs name,
    eq_iff field.name name,
  )

  get-disclose :
      (fields : List FieldDefinition) (m inputs : Dict (Claim F)) (name : String)
      → Dict.get name (disclose fields m inputs) ≡ (
          if names_public name fields
          then or_else (Dict.get name m) (Dict.get name inputs)
          else Dict.get name inputs)
  unfolding disclose
  get-disclose [] m inputs name = refl
  get-disclose (field ∷ fields) m inputs name = ground (
    arith,
    get-disclose fields m (disclose_field field m inputs) name,
    get-disclose_field field m inputs name,
  )

  -- The public inputs hold a name exactly if a public field has it and it has a value, and then that
  -- value.
  pub get-public_inputs :
      (fields : List FieldDefinition) (m : Dict (Claim F)) (name : String)
      → Dict.get name (public_inputs fields m)
        ≡ (if names_public name fields then Dict.get name m else none)
  unfolding public_inputs Dict.get
  get-public_inputs fields m name = ground (arith, get-disclose fields m [] name)

  -- Nothing is missing exactly if every field but `aud` and `nonce` has a value.
  pub missing-eq-nil_iff :
      (fields : List FieldDefinition) (m : Dict (Claim F))
      → (missing fields m ≡ [])
        ↔ All (λ field. (is_bound field.name || Dict.has field.name m) ≡ true) fields
  unfolding missing
  missing-eq-nil_iff [] m = (λ _. tt, λ _. refl)
  missing-eq-nil_iff (field ∷ fields) m =
      elim (Bool-cases (is_bound field.name || Dict.has field.name m)) [
        | inl e ↦ ground (arith, missing-eq-nil_iff fields m)
        | inr e ↦ (λ h. absurd (cc (simp e at h)), λ h. absurd (cc (e, h.0)))
      ]
