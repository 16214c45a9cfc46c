-- ===== src/Schema.antt =====
-- system/pkg/zkp/schema.go: the schema of a proof, its preparation and its field orders.
-- The JSON decoding of a schema is a parameter of the callers; this file starts from the decoded
-- value. Error messages are data with the values that the message shows.
pub mod Numbers
pub mod Prepare
pub mod Orders
mod Tests
use digital_identity_system.Prelude.{
  String, ◌≡◌, Bool, true, false, not, Option, none, some, List, [], ◌∷◌, ◌==◌, if◌then◌else◌,
  is_empty, Result, ok, err, ◌>>=◌, ◌>>◌, guard, or_err,
}
use digital_identity_system.Dict
use digital_identity_system.Dict.{Dict}

-- `FieldType` is a string in the source, with these values for constants.
abbrev pub field_type_integer : String
field_type_integer = "integer"

abbrev pub field_type_number : String
field_type_number = "number"

abbrev pub field_type_boolean : String
field_type_boolean = "boolean"

abbrev pub field_type_string : String
field_type_string = "string"

abbrev pub field_type_date : String
field_type_date = "date"

-- `ConstraintType`, a string too.
abbrev pub constraint_range : String
constraint_range = "range_check"

abbrev pub constraint_comparison : String
constraint_comparison = "comparison"

abbrev pub constraint_age : String
constraint_age = "age_verification"

pub record FieldDefinition : Type 0 where
  pub name : String
  pub type : String
  pub required : Bool
  pub secret : Bool
  pub public : Bool
  pub description : String

-- `value` is the raw JSON text.
pub record ConstraintDefinition : Type 0 where
  pub type : String
  pub fields : List String
  pub operator : String
  pub value : String
  pub error_message : String

pub record SchemaDefinition : Type 0 where
  pub schema_id : String
  pub version : String
  pub fields : List FieldDefinition
  pub constraints : List ConstraintDefinition
  pub field_index : Dict FieldDefinition

pub data SchemaError : Type 0 where
  parse_schema no_fields empty_name : SchemaError
  duplicate_field : String → SchemaError
  untyped_constraint : SchemaError
  constraint_without_fields : String → SchemaError
  unknown_field : String → SchemaError

-- Default visibility: secret if neither explicitly public nor secret.
unfoldable pub visible : FieldDefinition → FieldDefinition
visible field =
    if field.public
    then record field { secret = false }
    else if not field.secret
    then record field { secret = true }
    else field

unfoldable pub typed : FieldDefinition → FieldDefinition
typed field = if field.type == "" then record field { type = field_type_string } else field

-- What the loop of `prepare` writes back for one field.
unfoldable pub prepared : FieldDefinition → FieldDefinition
unfolding visible typed
prepared field = typed (visible field)

-- The first loop of `prepare`: the index so far, and the fields that are left.
unfoldable pub prepare_fields :
    Dict FieldDefinition
    → List FieldDefinition
    → Result SchemaError (List FieldDefinition × Dict FieldDefinition)
prepare_fields index [] = ok ([], index)
prepare_fields index (field ∷ fields) =
    let rest = prepare_fields (Dict.put field.name (prepared field) index) fields in
    if field.name == ""
    then err empty_name
    else if Dict.has field.name index
    then err (duplicate_field field.name)
    else do r ← rest; ok (prepared field ∷ r.0, r.1)

-- The inner loop over the field names of a constraint.
unfoldable pub check_names : Dict FieldDefinition → List String → Result SchemaError (Unit {0})
check_names index [] = ok tt
check_names index (name ∷ names) =
    let rest = check_names index names in
    if Dict.has name index then rest else err (unknown_field name)

unfoldable pub check_constraint :
    Dict FieldDefinition → ConstraintDefinition → Result SchemaError (Unit {0})
check_constraint index constraint =
    if constraint.type == ""
    then err untyped_constraint
    else if is_empty constraint.fields
    then err (constraint_without_fields constraint.type)
    else check_names index constraint.fields

unfoldable pub check_constraints :
    Dict FieldDefinition → List ConstraintDefinition → Result SchemaError (Unit {0})
check_constraints index [] = ok tt
check_constraints index (constraint ∷ constraints) = do
  check_constraint index constraint
  check_constraints index constraints

unfoldable pub prepare : SchemaDefinition → Result SchemaError SchemaDefinition
prepare s = if is_empty s.fields then err no_fields else do
  r ← prepare_fields [] s.fields
  check_constraints r.1 s.constraints
  ok (record s { fields = r.0; field_index = r.1 })

-- `unmarshal` stands for `json.Unmarshal` into a schema.
unfoldable pub parse_schema_with :
    (String → Option SchemaDefinition) → String → Result SchemaError SchemaDefinition
parse_schema_with unmarshal text = do schema ← or_err (unmarshal text) parse_schema; prepare schema

-- `(s *SchemaDefinition) FieldDefinition(name)`, by way of `field(name)`
unfoldable pub field_definition : SchemaDefinition → String → Result SchemaError FieldDefinition
field_definition s name = or_err (Dict.get name s.field_index) (unknown_field name)

unfoldable pub secret_names : List FieldDefinition → List String
secret_names [] = []
secret_names (field ∷ fields) =
    let rest = secret_names fields in if field.public then rest else field.name ∷ rest

unfoldable pub public_names : List FieldDefinition → List String
public_names [] = []
public_names (field ∷ fields) =
    let rest = public_names fields in if not field.public then rest else field.name ∷ rest

unfoldable pub secret_field_order : SchemaDefinition → List String
unfolding secret_names
secret_field_order s = secret_names s.fields

unfoldable pub public_field_order : SchemaDefinition → List String
unfolding public_names
public_field_order s = public_names s.fields
