-- ===== src/Wallet/Create/Descriptor.antt =====
-- How internal/app/handlers fetches a descriptor, its schema and its proving key
-- (zkp_descriptor.go, zkp_prove.go).
use digital_identity_system.Prelude.{
  ℕ, String, not, ◌==◌, eqb, if◌then◌else◌, Result, ok, err, ◌>>=◌, ◌>>◌, guard,
}
use digital_identity_system.Presentation.Handler.{PresentationDescriptor}
use digital_identity_system.Presentation.Verify.{◌⧺◌}
use digital_identity_system.Wallet.{Config}
use digital_identity_system.Wallet.Url.{normalize_weird_url}

-- net/http, encoding/json, path, fmt and strings. A GET answers a status and a body, whose reading
-- may fail, or the error of the transport.
pub record Web : Type 0 where
  pub get : String → Result String (ℕ × Result String String)
  pub decode_descriptor : String → Result String PresentationDescriptor
  pub trim_space : String → String
  pub trim_right_slashes : String → String
  pub status_text : ℕ → String
  -- `fmt.Sprintf("status %d: %s", code, body)`, with as much of the body as could be read
  pub status_and_body : ℕ → Result String String → String

module _ (web : Web) where
  unfoldable pub descriptor_url : Config → String → String
  descriptor_url config id =
      web.trim_right_slashes config.zkp_verifier_base_url
      ⧺ "/v1/presentations/"
      ⧺ id
      ⧺ "/descriptor"

  -- The body of a successful GET.
  unfoldable pub opened :
      String → Result String (ℕ × Result String String) → Result String (Result String String)
  opened what (err e) = err (what ⧺ " fetch: " ⧺ e)
  opened what (ok (code, body)) =
      if not (eqb code 200)
      then err (what ⧺ " fetch: " ⧺ web.status_and_body code body)
      else ok body

  unfoldable pub readable : String → Result String String → Result String String
  readable words (err e) = err (words ⧺ e)
  readable words (ok body) = ok body

  unfoldable pub fetch : String → String → Result String String
  unfolding opened readable
  fetch what url = do body ← opened what (web.get url); readable (what ⧺ " read: ") body

  -- The descriptor with its addresses repaired.
  unfoldable pub normalized : PresentationDescriptor → PresentationDescriptor
  normalized desc = record desc {
    schema_uri = normalize_weird_url web.trim_space desc.schema_uri;
    submit_url = normalize_weird_url web.trim_space desc.submit_url;
    vk_url = normalize_weird_url web.trim_space desc.vk_url;
    pk_url = normalize_weird_url web.trim_space desc.pk_url;
    audience = normalize_weird_url web.trim_space desc.audience;
  }

  unfoldable pub decode_body : Result String String → Result String PresentationDescriptor
  unfolding readable
  decode_body (err e) = err ("descriptor json: " ⧺ e)
  decode_body (ok body) = readable_descriptor (web.decode_descriptor body)
    where
      readable_descriptor :
          Result String PresentationDescriptor → Result String PresentationDescriptor
      readable_descriptor (err e) = err ("descriptor json: " ⧺ e)
      readable_descriptor (ok desc) = ok desc

  unfoldable pub fetch_descriptor_schema_and_pk :
      Config → String → Result String (PresentationDescriptor × String × String)
  unfolding descriptor_url opened decode_body normalized fetch
  fetch_descriptor_schema_and_pk config id = do
    body ← opened "descriptor" (web.get (descriptor_url config id))
    decoded ← decode_body body
    let desc = normalized decoded
    guard (not (web.trim_space desc.schema_uri == "")) "descriptor has empty schema.uri"
    guard (not (web.trim_space desc.pk_url == "")) "descriptor has empty artifacts.pk_url"
    schema ← fetch "schema" desc.schema_uri
    pk ← fetch "pk" desc.pk_url
    ok (desc, schema, pk)
