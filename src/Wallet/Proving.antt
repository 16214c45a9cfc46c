-- ===== src/Wallet/Proving.antt =====
-- internal/app/zkp/prove_dynamic.go: a proof from a schema and values. The wallet's copies of the
-- schema and of the circuit are those of system/pkg/zkp.
use digital_identity_system.Prelude.{
  String, Option, none, some, ◌==◌, if◌then◌else◌, Result, ok, err, ◌>>=◌, ◌>>◌, guard, or_err, not,
  map,
}
use digital_identity_system.Dict
use digital_identity_system.Dict.{Dict}
use digital_identity_system.Schema.{
  SchemaDefinition, SchemaError, parse_schema_with, field_type_string,
}
use digital_identity_system.Circuit.Values.{Value, stringer, other, Host, CircuitError}
use digital_identity_system.Circuit.Build.{DynamicCircuit, new_dynamic_circuit, clone}
use digital_identity_system.Circuit.Assign.{assign_values}
use digital_identity_system.Presentation.Package.{ZkpResult}
use digital_identity_system.Presentation.Env.{Env}
use digital_identity_system.Wallet.Claims.{Claim, leaf, object, Object}

-- gnark's witnesses and prover, and the printing of a decoded object; the rest is in `Env`.
pub record Prover (env : Env) : Type 1 where
  pub FullWitness : Type 0
  pub new_witness : DynamicCircuit env.Float → Option FullWitness
  pub public_part : FullWitness → Option env.Witness
  pub read_pk : String → Option env.ProvingKey
  pub prove : env.Ccs → env.ProvingKey → FullWitness → Option env.Proof
  pub print_object : Object env.Float → String

pub data ProveError : Type 0 where
  empty_schema no_compile no_witness no_public_witness no_pk no_proof : ProveError
  parses : SchemaError → ProveError
  builds assigns : CircuitError → ProveError

-- `fmt.Errorf` around an error.
unfoldable pub caught {ℓ} :
    {E : Type 0} {A : Type ℓ} → (E → ProveError) → Result E A → Result ProveError A
caught f (err e) = err (f e)
caught f (ok a) = ok a

module _ (env : Env) (prover : Prover env) (host : Host env.Float) where
  unfoldable pub value_of : Claim env.Float → Value env.Float
  value_of (leaf v) = v
  value_of (object o) = other (prover.print_object o)

  -- The type that `FieldDefinition` reports, empty for an unknown name.
  unfoldable pub type_of : SchemaDefinition → String → String
  type_of schema name = elim (Dict.get name schema.field_index) [ none ↦ "" | some f ↦ f.type ]

  -- The value of a text field is replaced by its hash, a big integer that prints in decimals.
  unfoldable pub hashed : SchemaDefinition → String × Claim env.Float → String × Value env.Float
  unfolding value_of type_of
  hashed schema (name, claim) =
      let value = value_of claim in
      if type_of schema name == field_type_string
      then (name, stringer (env.print_int (host.sha256_int (host.sprint value))))
      else (name, value)

  -- The values in the order in which Go visits the map.
  unfoldable pub prove_dynamic_from_schema :
      String → Dict (Claim env.Float) → String → Result ProveError (ZkpResult env.Proof env.Witness)
  unfolding caught hashed
  prove_dynamic_from_schema schema_json assignments pk_bytes = do
    guard (not (schema_json == "")) empty_schema
    schema ← caught parses (parse_schema_with env.unmarshal_schema schema_json)
    circuit ← caught builds (new_dynamic_circuit (some schema))
    ccs ← or_err (env.compile circuit) no_compile
    let filled = assign_values host (clone circuit) (map (hashed schema) assignments)
    caught assigns filled.1
    full ← or_err (prover.new_witness filled.0) no_witness
    public_witness ← or_err (prover.public_part full) no_public_witness
    pk ← or_err (prover.read_pk pk_bytes) no_pk
    proof ← or_err (prover.prove ccs pk full) no_proof
    ok (record { proof = proof; public_witness = public_witness; tx_hash = "" })
