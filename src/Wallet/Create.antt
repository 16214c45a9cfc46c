-- ===== src/Wallet/Create.antt =====
-- internal/app/handlers/zkp_prove.go: the wallet's answer to a presentation request. The calls of
-- other servers are functions, and so are JSON, path and strings; log lines are left out. A byte
-- slice that is only passed on is a text.
pub mod Descriptor
pub mod Submits
pub mod Posts
pub mod Echo
use digital_identity_system.Prelude.{
  ℕ, String, Bool, true, false, not, Option, none, some, List, [], ◌∷◌, ◌==◌, if◌then◌else◌,
  is_empty, length, map, Result, ok, err, ◌>>=◌, ◌>>◌, guard, or_err,
}
use digital_identity_system.Dict
use digital_identity_system.Dict.{Dict}
use digital_identity_system.Schema.{SchemaDefinition, SchemaError, parse_schema_with}
use digital_identity_system.Circuit.Values.{Host}
use digital_identity_system.Presentation.Types.{Bytes}
use digital_identity_system.Presentation.Env.{Env}
use digital_identity_system.Presentation.Package.{ZkpResult, serialize_borsh}
use digital_identity_system.Presentation.Handler.{PresentationDescriptor}
use digital_identity_system.Presentation.Verify.{◌⧺◌}
use digital_identity_system.Wallet.{Config, HttpRequest}
use digital_identity_system.Wallet.Store.{VerifiableCredential, VcStore, get}
use digital_identity_system.Wallet.Claims.{
  Claim, Object, Reader, assign_all, bind, missing, public_inputs,
}
use digital_identity_system.Wallet.Http.{Answer, json_answer}
use digital_identity_system.Wallet.Proving.{Prover, ProveError, prove_dynamic_from_schema}
use Descriptor.{Web, fetch_descriptor_schema_and_pk}

-- The body that is posted to the verifier.
pub record Submission (F : Type 0) : Type 0 where
  pub request_id : String
  pub zkp_blob_b64 : String
  pub public_inputs : Dict (Claim F)
  pub challenge : String

-- What `SubmitURL` answers to a submission, and the texts of errors.
pub record Verifier (F : Type 0) : Type 0 where
  pub post : String → Submission F → Answer
  pub decode : String → Result String (Claim F)
  pub base64_encode : Bytes → String
  pub join : List String → String
  pub schema_error : SchemaError → String
  pub prove_error : ProveError → String

pub record ZkpCreateResponse (F : Type 0) : Type 0 where
  pub request_id : String
  pub schema_hash : String
  pub schema_uri : String
  pub audience : String
  pub expires_at : ℕ
  pub submit_url : String
  pub zkp_borsh_base64 : String
  pub proof_length : ℕ
  pub public_witness_ok : Bool
  pub verifier_response : Claim F

-- A status and its message.
abbrev pub Refusal : Type 0
Refusal = ℕ × String

-- A failing call, with the status and the words that the handler puts before its message.
unfoldable pub refused {ℓ} :
    {E : Type 0} {A : Type ℓ} → ℕ → String → (E → String) → Result E A → Result Refusal A
refused code words print (err e) = err (code, words ⧺ print e)
refused code words print (ok a) = ok a

module _ {F : Type 0} where
  -- The values for the fields of the schema, from the credentials and from the descriptor.
  unfoldable pub assignments_for :
      Reader F → PresentationDescriptor → SchemaDefinition → List String → Dict (Claim F)
  assignments_for reader desc schema raws =
      bind "nonce" desc.nonce schema
        (bind "aud" desc.audience schema (assign_all reader schema.fields raws []))

module _ {F : Type 0} where
  unfoldable pub response_for :
      PresentationDescriptor → Submission F → ℕ → Claim F → ZkpCreateResponse F
  response_for desc submission size answer = record {
    request_id = desc.request_id;
    schema_hash = desc.schema_hash;
    schema_uri = desc.schema_uri;
    audience = desc.audience;
    expires_at = desc.expires_at;
    submit_url = desc.submit_url;
    zkp_borsh_base64 = submission.zkp_blob_b64;
    proof_length = size;
    public_witness_ok = true;
    verifier_response = answer;
  }

module _ (env : Env) (prover : Prover env) (host : Host env.Float) (reader : Reader env.Float)
    (verifier : Verifier env.Float) where
  -- The proof over the values, and what is posted with it.
  unfoldable pub prove_and_pack :
      PresentationDescriptor
      → SchemaDefinition
      → (schema_json pk_bytes : String) → Dict (Claim env.Float)
      → Result Refusal (Submission env.Float × ℕ)
  unfolding refused
  prove_and_pack desc schema schema_json pk_bytes assignments = do
    result ←
        refused 500 "zkp prove failed: " verifier.prove_error
          (prove_dynamic_from_schema env prover host schema_json assignments pk_bytes)
    blob ← or_err (serialize_borsh env.codec result) (500, "zkp serialize failed")
    ok (
      record {
        request_id = desc.request_id;
        zkp_blob_b64 = verifier.base64_encode blob;
        public_inputs = public_inputs schema.fields assignments;
        challenge = desc.challenge;
      },
      length blob,
    )

  unfoldable pub assign_and_prove :
      List VerifiableCredential
      → PresentationDescriptor
      → (schema_json pk_bytes : String) → SchemaDefinition
      → Result Refusal (Submission env.Float × ℕ)
  unfolding assignments_for prove_and_pack
  assign_and_prove listed desc schema_json pk_bytes schema =
      let assignments = assignments_for reader desc schema (map (λ vc. vc.raw) listed) in
      let absent = missing schema.fields assignments in
      let message : String = "no credentials available to satisfy schema; missing fields: " in
      if is_empty listed
      then err (400, "no credentials in wallet – import a VC first")
      else if not (is_empty absent)
      then err (400, message ⧺ verifier.join absent)
      else prove_and_pack desc schema schema_json pk_bytes assignments

  -- From the descriptor, the schema and the proving key to what is posted. `listed` holds the
  -- credentials in the order in which the store lists them at this call.
  unfoldable pub submission_for :
      List VerifiableCredential
      → PresentationDescriptor
      → (schema_json pk_bytes : String) → Result Refusal (Submission env.Float × ℕ)
  unfolding refused assign_and_prove
  submission_for listed desc schema_json pk_bytes = do
    schema ←
        refused 400 "schema parse failed: " verifier.schema_error
          (parse_schema_with env.unmarshal_schema schema_json)
    assign_and_prove listed desc schema_json pk_bytes schema

  unfoldable pub post_submission :
      Web
      → PresentationDescriptor
      → Submission env.Float × ℕ
      → Result Refusal (ZkpCreateResponse env.Float)
  unfolding refused response_for
  post_submission web desc built = do
    answer ←
        refused 400 "digital identity verify failed: " (λ e. e)
          (json_answer web.status_text verifier.decode desc.submit_url
            (verifier.post desc.submit_url built.0))
    ok (response_for desc built.0 built.1 answer)

  unfoldable pub create_for :
      Web
      → Config
      → List VerifiableCredential
      → (id : String) → Result Refusal (ZkpCreateResponse env.Float)
  unfolding refused submission_for post_submission
  create_for web config listed id = do
    fetched ←
        refused 400 "descriptor/schema/pk fetch failed: " (λ e. e)
          (fetch_descriptor_schema_and_pk web config id)
    built ← submission_for listed fetched.0 fetched.1 fetched.2
    post_submission web fetched.0 built

  -- `body` is the request id of the decoded body.
  unfoldable pub handle_zkp_create :
      Web
      → Config
      → List VerifiableCredential
      → HttpRequest
      → (body : Result String String) → Result Refusal (ZkpCreateResponse env.Float)
  unfolding refused create_for
  handle_zkp_create web config listed r body = do
    guard (r.method == "POST") (405, "method not allowed")
    named ← refused 400 "bad json: " (λ e. e) body
    guard (not (web.trim_space named == "")) (400, "missing request_id")
    create_for web config listed (web.trim_space named)

-- What `HandleWalletClaims` writes.
pub record WalletClaims (F : Type 0) : Type 0 where
  pub id : String
  pub format : String
  pub display_name : String
  pub issuer_meta : String
  pub subject_meta : String
  pub types_meta : List String
  pub claims : Option (Object F)

module _ {F : Type 0} (reader : Reader F) (base : String → String) where
  unfoldable pub handle_wallet_claims : HttpRequest → VcStore → Result Refusal (WalletClaims F)
  handle_wallet_claims r vcs = do
    vc ← or_err (get (base r.path) vcs) (404, "not found")
    payload ← or_err (reader.jws_parse vc.raw) (400, "jws parse error")
    claims ← or_err (reader.unmarshal payload) (400, "payload json error")
    ok (record {
      id = vc.id;
      format = vc.format;
      display_name = vc.id;
      issuer_meta = vc.issuer;
      subject_meta = vc.subject;
      types_meta = vc.types;
      claims = claims;
    })
