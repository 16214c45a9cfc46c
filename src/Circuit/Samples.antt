-- ===== src/Circuit/Samples.antt =====
-- Sample data for the circuits: a schema with two fields, and a host.
use digital_identity_system.Prelude.{String, Bool, true, false, none, [], ◌∷◌, ◌==◌, ℕ}
use digital_identity_system.Prelude.Int.{pos}
use digital_identity_system.Schema.{
  FieldDefinition, SchemaDefinition, field_type_integer, field_type_string,
}
use digital_identity_system.Circuit.Values.{Host}

abbrev pub field : String → String → Bool → FieldDefinition
field name type public = record {
  name = name;
  type = type;
  required = true;
  secret = not_public public;
  public = public;
  description = "";
}
  where
    not_public : Bool → Bool
    not_public true = false
    not_public false = true

abbrev pub diploma : SchemaDefinition
diploma = record {
  schema_id = "diploma";
  version = "1";
  fields = field "name" field_type_string false ∷ field "year" field_type_integer true ∷ [];
  constraints = [];
  field_index = [];
}

-- Floats are natural numbers, and a hash is 7.
abbrev pub host : Host ℕ
host = record {
  sprint = λ _. "";
  parse_float = λ _. none;
  parse_bool = λ _. none;
  parse_rfc3339 = λ _. none;
  parse_date = λ _. none;
  int_of_float = pos;
  equal_fold = λ s t. s == t;
  sha256_int = λ _. 7;
}
