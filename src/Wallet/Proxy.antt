-- ===== src/Wallet/Proxy.antt =====
-- The proxies of internal/app/handlers/zkp_descriptor.go, through which a page of the wallet reaches
-- the verifier.
pub mod Agrees
mod Tests
use digital_identity_system.Prelude.{
  ℕ, String, ◌≡◌, refl, inl, inr, Bool, true, false, not, Option, none, some, List, ◌==◌, eqb,
  is_empty, if◌then◌else◌, Result, ok, err, ◌>>=◌, ◌>>◌, guard, >>=-eq-ok,
}
use digital_identity_system.Dict.{Dict}
use digital_identity_system.Presentation.Handler.{PresentationDescriptor}
use digital_identity_system.Presentation.Verify.{◌⧺◌}
use digital_identity_system.Wallet.{Config, HttpRequest}
use digital_identity_system.Wallet.Url.{normalize_weird_url}
use digital_identity_system.Wallet.Create.{Refusal, refused}
use digital_identity_system.Wallet.Create.Descriptor.{
  Web, descriptor_url, opened, readable, fetch, normalized, decode_body,
  fetch_descriptor_schema_and_pk,
}

pub record FetchDescriptorResponse : Type 0 where
  pub descriptor : PresentationDescriptor
  pub schema_json : String

-- `F` is what stands for the values of the public inputs.
pub record VerifyProxyRequest (F : Type 0) : Type 0 where
  pub request_id : String
  pub zkp_blob_b64 : String
  pub public_inputs : Dict F
  pub challenge : String

-- The JSON object that is posted; `none` is a key that is left out.
pub record ProxyPayload (F : Type 0) : Type 0 where
  pub request_id : String
  pub zkp_blob_b64 : String
  pub public_inputs : Option (Dict F)
  pub challenge : Option String

-- The answer of the verifier, which is passed on.
pub record Relayed : Type 0 where
  pub status : ℕ
  pub headers : Dict (List String)
  pub body : String

-- `_ = json.NewEncoder(w).Encode(out)`: an error is dropped, and nothing is written.
unfoldable pub written : Result String String → String
written (err e) = ""
written (ok text) = text

module _ (web : Web) where
  -- The body of a successful GET.
  unfoldable pub body_of :
      String → Result String (ℕ × Result String String) → Result Refusal (Result String String)
  body_of what (err e) = err (502, what ⧺ " fetch failed: " ⧺ e)
  body_of what (ok (code, body)) =
      if not (eqb code 200)
      then err (502, what ⧺ " fetch failed: " ⧺ web.status_and_body code body)
      else ok body

  unfoldable pub descriptor_of : Result String String → Result String PresentationDescriptor
  descriptor_of (err e) = err e
  descriptor_of (ok body) = web.decode_descriptor body

  -- The descriptor with its addresses repaired, but for that of the proving key.
  unfoldable pub repaired : PresentationDescriptor → PresentationDescriptor
  repaired desc = record desc {
    schema_uri = normalize_weird_url web.trim_space desc.schema_uri;
    submit_url = normalize_weird_url web.trim_space desc.submit_url;
    vk_url = normalize_weird_url web.trim_space desc.vk_url;
    audience = normalize_weird_url web.trim_space desc.audience;
  }

  unfoldable pub fetch_descriptor : Config → String → Result Refusal FetchDescriptorResponse
  unfolding refused body_of descriptor_of repaired descriptor_url
  fetch_descriptor config id = do
    body ← body_of "descriptor" (web.get (descriptor_url web config id))
    decoded ← refused 400 "descriptor json error: " (λ e. e) (descriptor_of body)
    let desc = repaired decoded
    guard (not (web.trim_space desc.schema_uri == "")) (400, "descriptor has empty schema.uri")
    answer ← body_of "schema" (web.get desc.schema_uri)
    schema ← refused 400 "schema read failed: " (λ e. e) answer
    ok (record { descriptor = desc; schema_json = schema })

  -- The answer is a refusal or the body of an answer with status 200. `encode` is encoding/json,
  -- which refuses a schema that is not JSON.
  unfoldable pub handle_fetch_descriptor :
      (encode : FetchDescriptorResponse → Result String String)
      → Config
      → HttpRequest
      → Result String String
      → Result Refusal String
  unfolding refused fetch_descriptor written
  handle_fetch_descriptor encode config r body = do
    guard (r.method == "POST") (405, "method not allowed")
    named ← refused 400 "bad json: " (λ e. e) body
    let id = web.trim_space named
    guard (not (id == "")) (400, "missing request_id")
    out ← fetch_descriptor config id
    ok (written (encode out))

  module _ {F : Type 0} where
    unfoldable pub payload_for : VerifyProxyRequest F → ProxyPayload F
    payload_for body = record {
      request_id = web.trim_space body.request_id;
      zkp_blob_b64 = web.trim_space body.zkp_blob_b64;
      public_inputs = if is_empty body.public_inputs then none else some body.public_inputs;
      challenge =
          if web.trim_space body.challenge == ""
          then none
          else some (web.trim_space body.challenge);
    }

    -- `create` is `http.NewRequest`, which may refuse the address, and `send` is the call.
    unfoldable pub handle_verify_proxy :
        (create : String → Result String (Unit {0}))
        → (send : String → ProxyPayload F → Result String Relayed) → Config
        → HttpRequest
        → Result String (VerifyProxyRequest F)
        → Result Refusal Relayed
    unfolding refused payload_for
    handle_verify_proxy create send config r decoded = do
      guard (r.method == "POST") (405, "method not allowed")
      body ← refused 400 "bad json: " (λ e. e) decoded
      guard (not (web.trim_space body.request_id == "")) (400, "missing request_id")
      guard (not (web.trim_space body.zkp_blob_b64 == "")) (400, "missing zkp_blob_b64")
      let target = web.trim_right_slashes config.zkp_verifier_base_url ⧺ "/v1/presentations/verify"
      refused 500 "cannot create request: " (λ e. e) (create target)
      refused 502 "verify proxy failed: " (λ e. e) (send target (payload_for body))
