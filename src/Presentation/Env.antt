-- ===== src/Presentation/Env.antt =====
-- What system/api/src/zkprequest takes from code that is not in the repository: encoding/json,
-- crypto, gnark, borsh-go, fmt and time.
use digital_identity_system.Prelude.{ℕ, String, Bool, Option}
use digital_identity_system.Schema.{SchemaDefinition}
use digital_identity_system.Circuit.Build.{DynamicCircuit}
use digital_identity_system.Presentation.Types.{Bytes, Payload}
use digital_identity_system.Presentation.Package.{Codec}

pub record Env : Type 1 where
  pub Json : Type 0
  pub Float : Type 0
  pub Ccs : Type 0
  pub ProvingKey : Type 0
  pub VerifyingKey : Type 0
  pub Proof : Type 0
  pub Witness : Type 0
  -- `json.Unmarshal` into `any` and into a schema; the encoder without HTML escapes
  pub unmarshal : String → Option Json
  pub unmarshal_schema : String → Option SchemaDefinition
  pub encode : Json → Option String
  -- the SHA-256 sum in hexadecimal
  pub sha256_hex : String → String
  -- `frontend.Compile`, and `groth16.Setup` with the randomness that it draws
  pub compile : DynamicCircuit Float → Option Ccs
  pub setup : Ccs → ℕ → Option (ProvingKey × VerifyingKey)
  pub write_pk : ProvingKey → Option Bytes
  pub write_vk : VerifyingKey → Option Bytes
  pub read_vk : Bytes → Option VerifyingKey
  pub verify : Proof → VerifyingKey → Witness → Bool
  pub codec : Codec Proof Witness
  pub base64_decode : String → Option Bytes
  -- `fmt.Sprint` of an int, `time` and the webhook's encoding
  pub print_int : ℕ → String
  pub year : ℕ → ℕ
  pub month : ℕ → ℕ
  pub day : ℕ → ℕ
  pub format_time : ℕ → String
  pub marshal : Payload → String
  pub hmac_hex : String → String → String
