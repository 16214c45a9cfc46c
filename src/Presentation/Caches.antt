-- ===== src/Presentation/Caches.antt =====
-- `canonicalJSON` of system/api/src/zkprequest/service.go and `ensureVKForSchema` of helpers.go.
pub mod Laws
use Prim.Native.String
use digital_identity_system.Prelude.{
  ℕ, String, Bool, true, false, ◌&&◌, Option, none, some, ◌==◌, if◌then◌else◌, Result, ok, err,
  ◌>>=◌, or_err,
}
use digital_identity_system.Dict
use digital_identity_system.Schema.{SchemaError, parse_schema_with}
use digital_identity_system.Circuit.Values.{CircuitError}
use digital_identity_system.Circuit.Build.{DynamicCircuit, new_dynamic_circuit}
use digital_identity_system.Presentation.Types.{Bytes, Service}
use digital_identity_system.Presentation.Env.{Env}

-- `out[:len(out)-1]` if the last character is a newline.
unfoldable pub drop_last_newline : String → String
drop_last_newline String.[] = String.[]
drop_last_newline (String.◌∷◌ c String.[]) =
    if String.◌∷◌ c String.[] == "\n" then String.[] else String.◌∷◌ c String.[]
drop_last_newline (String.◌∷◌ c rest) = String.◌∷◌ c (drop_last_newline rest)

-- What can go wrong before a request is stored.
pub data CreateError : Type 0 where
  not_initialized ad_hoc_disabled invalid_schema_json : CreateError
  bad_schema : SchemaError → CreateError
  bad_circuit : CircuitError → CreateError
  compile_failed setup_failed vk_not_written pk_not_written : CreateError

abbrev pub lift_schema {ℓ} : {A : Type ℓ} → Result SchemaError A → Result CreateError A
lift_schema (ok a) = ok a
lift_schema (err e) = err (bad_schema e)

abbrev pub lift_circuit {ℓ} : {A : Type ℓ} → Result CircuitError A → Result CreateError A
lift_circuit (ok a) = ok a
lift_circuit (err e) = err (bad_circuit e)

module _ (env : Env) where
  unfoldable pub canonical_json : String → Result CreateError String
  unfolding drop_last_newline
  canonical_json raw = do
    v ← or_err (env.unmarshal raw) invalid_schema_json
    out ← or_err (env.encode v) invalid_schema_json
    ok (drop_last_newline out)

  unfoldable pub schema_hash : String → String
  schema_hash canon = String.◌++◌ "sha256:" (env.sha256_hex canon)

  -- The serialized keys of a canonical schema: parse, build, compile, setup, write.
  unfoldable pub make_keys : ℕ → String → Result CreateError (Bytes × Bytes)
  make_keys random canon = do
    schema ← lift_schema (parse_schema_with env.unmarshal_schema canon)
    circuit ← lift_circuit (new_dynamic_circuit {F = env.Float} (some schema))
    ccs ← or_err (env.compile circuit) compile_failed
    keys ← or_err (env.setup ccs random) setup_failed
    vk ← or_err (env.write_vk keys.1) vk_not_written
    pk ← or_err (env.write_pk keys.0) pk_not_written
    ok (vk, pk)

  abbrev pub store_keys : Service → String → String → Bytes × Bytes → Service
  store_keys s hash canon (vk, pk) = record s {
    vk_cache = Dict.put hash vk s.vk_cache;
    pk_cache = Dict.put hash pk s.pk_cache;
    schema_cache = Dict.put hash canon s.schema_cache;
  }

  unfoldable pub ensure_vk_for_schema : Service → ℕ → String → Service × Result CreateError String
  unfolding schema_hash
  ensure_vk_for_schema s random canon =
      let hash = schema_hash canon in
      if Dict.has hash s.vk_cache && Dict.has hash s.pk_cache
      then (s, ok hash)
      else elim (make_keys random canon) [
        | err e ↦ (s, err e)
        | ok keys ↦ (store_keys s hash canon keys, ok hash)
      ]
