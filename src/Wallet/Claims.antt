-- ===== src/Wallet/Claims.antt =====
-- What internal/app/handlers/zkp_prove.go reads from the wallet's credentials: the claims, the values
-- that it assigns to the fields of a schema, and the fields that are left without a value.
pub mod Reference
use digital_identity_system.Prelude.{
  String, Bool, true, false, not, ◌&&◌, ◌||◌, Option, none, some, List, [], ◌∷◌, ◌==◌,
  if◌then◌else◌,
}
use digital_identity_system.Dict
use digital_identity_system.Dict.{Dict}
use digital_identity_system.Schema.{FieldDefinition, SchemaDefinition}
use digital_identity_system.Circuit.Values.{Value, text}

-- A decoded JSON value: an object, or anything else as the Go value that it decodes to (an array as
-- `other`).
mutual
  pub data Claim (F : Type 0) : Type 0 where
    leaf : Value F → Claim F
    object : Object F → Claim F

  pub data Object (F : Type 0) : Type 0 where
    empty : Object F
    entry : String → Claim F → Object F → Object F

module _ {F : Type 0} where
  unfoldable pub lookup : String → Object F → Option (Claim F)
  lookup k empty = none
  lookup k (entry j v o) = if j == k then some v else lookup k o

  -- `m[k]` of a map that may be nil.
  unfoldable pub find : String → Option (Object F) → Option (Claim F)
  unfolding lookup
  find k none = none
  find k (some o) = lookup k o

  -- `v.(map[string]any)`
  unfoldable pub as_map : Option (Claim F) → Option (Object F)
  as_map none = none
  as_map (some (leaf v)) = none
  as_map (some (object o)) = some o

  -- The loop of `getByPath`.
  unfoldable pub walk : List String → Claim F → Option (Claim F)
  unfolding find as_map
  walk [] cur = some cur
  walk (p ∷ parts) (leaf v) = none
  walk (p ∷ parts) (object o) = elim (lookup p o) [ none ↦ none | some v ↦ walk parts v ]

  -- `split` is `strings.Split` at the dots.
  unfoldable pub get_by_path :
      (String → List String) → Option (Object F) → String → Option (Claim F)
  unfolding walk
  get_by_path split none path = none
  get_by_path split (some m) path = walk (split path) (object m)

  unfoldable pub extract_credential_subject : Option (Object F) → Option (Object F)
  unfolding find as_map
  extract_credential_subject claims = as_map (find "credentialSubject" (as_map (find "vc" claims)))

-- The JWS library, encoding/json and strings. A payload `null` decodes to a nil map.
pub record Reader (F : Type 0) : Type 0 where
  pub jws_parse : String → Option String
  pub unmarshal : String → Option (Option (Object F))
  pub split : String → List String

-- The names that are left to the descriptor.
unfoldable pub is_bound : String → Bool
is_bound name = name == "aud" || name == "nonce"

module _ {F : Type 0} where
  -- `if v, ok := ...; ok { m[name] = v }`
  unfoldable pub assign_found : String → Option (Claim F) → Dict (Claim F) → Dict (Claim F)
  assign_found name none assignments = assignments
  assign_found name (some v) assignments = Dict.put name v assignments

module _ {F : Type 0} (reader : Reader F) where
  -- The claims of a stored credential, unless it does not parse.
  unfoldable pub claims_of : String → Option (Option (Object F))
  claims_of raw = elim (reader.jws_parse raw) [
    | none ↦ none
    | some payload ↦ reader.unmarshal payload
  ]

  -- The three places where a field is looked up, in their order.
  unfoldable pub resolve : Option (Object F) → String → Option (Claim F)
  unfolding find extract_credential_subject get_by_path
  resolve claims name = elim (find name claims) [
    | some v ↦ some v
    | none ↦ elim (find name (extract_credential_subject claims)) [
      | some v ↦ some v
      | none ↦ get_by_path reader.split claims name
    ]
  ]

  -- One round of the loop over the fields.
  unfoldable pub assign_field :
      Option (Object F) → FieldDefinition → Dict (Claim F) → Dict (Claim F)
  unfolding is_bound resolve assign_found
  assign_field claims field assignments =
      if is_bound field.name
      then assignments
      else if Dict.has field.name assignments
      then assignments
      else assign_found field.name (resolve claims field.name) assignments

  unfoldable pub assign_fields :
      Option (Object F) → List FieldDefinition → Dict (Claim F) → Dict (Claim F)
  unfolding assign_field
  assign_fields claims [] assignments = assignments
  assign_fields claims (field ∷ fields) assignments =
      assign_fields claims fields (assign_field claims field assignments)

  unfoldable pub assign_credential :
      List FieldDefinition → Option (Option (Object F)) → Dict (Claim F) → Dict (Claim F)
  unfolding assign_fields
  assign_credential fields none assignments = assignments
  assign_credential fields (some claims) assignments = assign_fields claims fields assignments

  -- The loop over the credentials, here by their texts.
  unfoldable pub assign_all : List FieldDefinition → List String → Dict (Claim F) → Dict (Claim F)
  unfolding claims_of assign_credential
  assign_all fields [] assignments = assignments
  assign_all fields (raw ∷ raws) assignments =
      assign_all fields raws (assign_credential fields (claims_of raw) assignments)

module _ {F : Type 0} where
  -- One of the two values of the descriptor, if the schema declares its field and it is not empty.
  unfoldable pub bind : String → String → SchemaDefinition → Dict (Claim F) → Dict (Claim F)
  bind name value schema assignments =
      if Dict.has name schema.field_index && not (value == "")
      then Dict.put name (leaf (text value)) assignments
      else assignments

  unfoldable pub missing : List FieldDefinition → Dict (Claim F) → List String
  unfolding is_bound
  missing [] assignments = []
  missing (field ∷ fields) assignments =
      let rest = missing fields assignments in
      if is_bound field.name || Dict.has field.name assignments then rest else field.name ∷ rest

  unfoldable pub disclose_field : FieldDefinition → Dict (Claim F) → Dict (Claim F) → Dict (Claim F)
  unfolding assign_found
  disclose_field field assignments inputs =
      if not field.public
      then inputs
      else assign_found field.name (Dict.get field.name assignments) inputs

  -- The loop over the public fields, from the inputs so far.
  unfoldable pub disclose : List FieldDefinition → Dict (Claim F) → Dict (Claim F) → Dict (Claim F)
  unfolding disclose_field
  disclose [] assignments inputs = inputs
  disclose (field ∷ fields) assignments inputs =
      disclose fields assignments (disclose_field field assignments inputs)

  unfoldable pub public_inputs : List FieldDefinition → Dict (Claim F) → Dict (Claim F)
  unfolding disclose
  public_inputs fields assignments = disclose fields assignments []
