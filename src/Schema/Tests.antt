-- ===== src/Schema/Tests.antt =====
-- Runs of system/pkg/zkp/schema.go on a schema with a public and a secret field.
use digital_identity_system.Prelude.{
  ◌+◌, String, ◌≡◌, refl, ◌↔◌, Bool, true, false, ◌||◌, ◌&&◌, [], ◌∷◌, ok, err, length, All,
}
use digital_identity_system.Dict
use digital_identity_system.Schema.{
  FieldDefinition, SchemaDefinition, duplicate_field, field_type_integer, prepare, prepare_fields,
  check_constraint, check_names, check_constraints, public_field_order, secret_field_order,
}
use digital_identity_system.Schema.Prepare.{
  IsPrepared, IsDeclared, IsAcceptable, prepared_schema, index_of, prepare-eq-ok_iff,
  prepare-IsPrepared,
}
use digital_identity_system.Schema.Orders.{listed, HasNoRepeat, field_orders_partition}

abbrev field : String → String → Bool → FieldDefinition
field name type public = record {
  name = name;
  type = type;
  required = true;
  secret = false;
  public = public;
  description = "";
}

abbrev diploma : SchemaDefinition
diploma = record {
  schema_id = "diploma";
  version = "1";
  fields = field "name" "" false ∷ field "year" field_type_integer true ∷ [];
  constraints =
      record {
        type = "comparison";
        fields = "year" ∷ [];
        operator = "ge";
        value = "2000";
        error_message = "";
      }
      ∷ [];
  field_index = [];
}

prepared : prepare diploma ≡ ok (prepared_schema diploma)
unfolding prepare prepare_fields Dict.has Dict.put check_constraints check_constraint check_names
    prepared_schema index_of
prepared = refl

refused :
    prepare (record diploma { fields = field "a" "" false ∷ field "a" "" true ∷ [] })
    ≡ err (duplicate_field "a")
unfolding prepare prepare_fields Dict.has Dict.put
refused = refl

prepare-eq-ok_iff_example : IsAcceptable diploma
prepare-eq-ok_iff_example = ((prepare-eq-ok_iff diploma (prepared_schema diploma)).0 prepared).0

prepare-IsPrepared_example : All IsPrepared (prepared_schema diploma).fields
prepare-IsPrepared_example = prepare-IsPrepared diploma (prepared_schema diploma) prepared

abbrev t : SchemaDefinition
t = prepared_schema diploma

field_orders_partition_example :
    (((listed "year" (public_field_order t) || listed "year" (secret_field_order t)) ≡ true)
      ↔ IsDeclared "year" t.fields)
    × ((listed "year" (public_field_order t) && listed "year" (secret_field_order t)) ≡ false)
    × HasNoRepeat (secret_field_order t)
    × HasNoRepeat (public_field_order t)
    × (length (secret_field_order t) + length (public_field_order t) ≡ length t.fields)
field_orders_partition_example = field_orders_partition diploma t "year" prepared
