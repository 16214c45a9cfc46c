-- ===== src/Presentation/Samples.antt =====
-- Sample data of the presentation service: an environment in which proofs and witnesses are
-- numbers and a proof is good if it is 7, services, requests and submissions.
use digital_identity_system.Prelude.{ℕ, String, true, false, Option, none, some, [], ◌∷◌, eqb}
use digital_identity_system.Prelude.Int.{pos}
use digital_identity_system.Schema.{SchemaDefinition, field_type_string}
use digital_identity_system.Presentation.Types.{
  str, Bytes, ProofSubmission, PresentationRequest, Service,
}
use digital_identity_system.Presentation.Package.{Packed, Codec}
use digital_identity_system.Presentation.Env.{Env}
use digital_identity_system.Presentation.Create.{Draws}
use digital_identity_system.Presentation.Handler.{Links}

abbrev pub first : Bytes → Option ℕ
first [] = none
first (b ∷ _) = some b

abbrev pub pack : Bytes → Bytes → Option Bytes
pack (a ∷ []) (b ∷ []) = some (a ∷ b ∷ [])
pack _ _ = none

abbrev pub unpack : Bytes → Option Packed
unpack (a ∷ b ∷ []) = some (record { proof = a ∷ []; public_witness = b ∷ [] })
unpack _ = none

abbrev pub test_codec : Codec ℕ ℕ
test_codec = record {
  write_proof = λ p. some (p ∷ []);
  read_proof = first;
  write_witness = λ w. some (w ∷ []);
  read_witness = first;
  borsh_serialize = λ p. pack p.proof p.public_witness;
  borsh_deserialize = unpack;
}

abbrev pub name_schema : SchemaDefinition
name_schema = record {
  schema_id = "s";
  version = "1";
  fields =
      record {
        name = "name";
        type = field_type_string;
        required = true;
        secret = true;
        public = false;
        description = "";
      }
      ∷ [];
  constraints = [];
  field_index = [];
}

abbrev pub test_env : Env
test_env = record {
  Json = String;
  Float = ℕ;
  Ccs = Unit;
  ProvingKey = ℕ;
  VerifyingKey = ℕ;
  Proof = ℕ;
  Witness = ℕ;
  unmarshal = some;
  unmarshal_schema = λ _. some name_schema;
  encode = some;
  sha256_hex = λ s. s;
  compile = λ _. some tt;
  setup = λ _ n. some (n, n);
  write_pk = λ k. some (k ∷ []);
  write_vk = λ k. some (k ∷ []);
  read_vk = λ _. some 1;
  verify = λ p _ _. eqb p 7;
  codec = test_codec;
  base64_decode = λ _. some (7 ∷ 9 ∷ []);
  print_int = λ _. "2026";
  year = λ _. 2026;
  month = λ _. 11;
  day = λ _. 26;
  format_time = λ _. "now";
  marshal = λ p. p.request_id;
  hmac_hex = λ _ b. b;
}

abbrev pub idle : Service
idle = record {
  has_store = true;
  store = [];
  audience = "https://verifier";
  response_uri = "https://verifier/verify";
  ttl = pos 0;
  vk_cache = [];
  pk_cache = [];
  schema_cache = [];
  allow_ad_hoc_schema = true;
  waiters = [];
  channels = [];
  verdicts = [];
  timers = [];
  webhooks = [];
}

abbrev pub draws : Draws
draws = record { request_id = "r1"; nonce = "n1"; random = 5 }

abbrev pub issued_request : String → PresentationRequest
issued_request id = record {
  request_id = id;
  schema_json = "{}";
  schema_hash = "sha256:{}";
  public_inputs = ("aud", str "https://verifier") ∷ ("nonce", str "n1") ∷ [];
  response_uri = "https://verifier/verify";
  expires_at = 300;
  callback_url = "https://relying";
  callback_secret = "";
}

-- A service with two stored requests over one schema.
abbrev pub busy : Service
busy = record idle {
  store = ("r1", issued_request "r1") ∷ ("r2", issued_request "r2") ∷ [];
  vk_cache = ("sha256:{}", 5 ∷ []) ∷ [];
  pk_cache = ("sha256:{}", 5 ∷ []) ∷ [];
  schema_cache = ("sha256:{}", "{}") ∷ [];
}

abbrev pub submission : ProofSubmission
submission = record {
  request_id = "r1";
  zkp_blob_b64 = "Bwk=";
  public_inputs = ("aud", str "https://verifier") ∷ ("nonce", str "n1") ∷ [];
  challenge = "";
}

abbrev pub links : Links
links = record { query_escape = λ s. s; qr_png = λ s. s }
