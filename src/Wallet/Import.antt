-- ===== src/Wallet/Import.antt =====
-- internal/app/handlers/wallet_handlers.go: how credentials come into the wallet, and how it
-- shows them. The store is the one in memory, which never fails. A field that
-- `encoding/json` does not find is empty.
pub mod Ingest
pub mod Shown
pub mod Offered
mod Tests
use digital_identity_system.Prelude.{
  ℕ, String, Bool, true, false, not, ◌||◌, Option, none, some, List, [], ◌==◌, if◌then◌else◌,
  Result, ok, err, ◌>>=◌, ◌>>◌, guard, or_err,
}
use digital_identity_system.Prelude.Int.{ℤ}
use digital_identity_system.Dict
use digital_identity_system.Dict.{Dict}
use digital_identity_system.Presentation.Types.{Any, str}
use digital_identity_system.Presentation.Verify.{◌⧺◌}
use digital_identity_system.Wallet.{HttpRequest}
use digital_identity_system.Wallet.Issuance.{TokenRequest, grant_pre_authorized}
use digital_identity_system.Wallet.Store.{VerifiableCredential, VcStore, save, get, list}
use digital_identity_system.Wallet.Http.{Answer, json_answer}
use digital_identity_system.Wallet.Url.{begins}
use digital_identity_system.Wallet.Create.{Refusal, refused}

-- A value of `offer.Grants`: a JSON object, or anything else.
pub data Grant : Type 0 where
  grant_object : Dict Any → Grant
  no_object : Grant

-- The offer, as the wallet reads it.
pub record OfferDocument : Type 0 where
  pub credential_issuer : String
  pub credential_configuration_ids : List String
  pub grants : Dict Grant

pub record TokenResult : Type 0 where
  pub access_token : String
  pub token_type : String
  pub expires_in : ℤ
  pub c_nonce : String

pub record CredentialResult : Type 0 where
  pub format : String
  pub credential : String

-- What the wallet reads of the payload of a credential.
pub record PayloadFields : Type 0 where
  pub iss : String
  pub sub : String
  pub types : List String

-- net/http, encoding/json, net/url, strings, path, SHA-256 and the JWS library with the issuer's
-- keys. A payload is a text, and its JSON value is in `J`.
pub record Outside (J : Type 0) : Type 0 where
  pub get : String → Answer
  pub post : (url : String) → TokenRequest → Answer
  pub post_authorized : (url access_token : String) → Answer
  pub status_text : ℕ → String
  pub decode_offer : String → Result String OfferDocument
  pub decode_token : String → Result String TokenResult
  pub decode_credential : String → Result String CredentialResult
  -- `url.Parse`, and `credential_offer_uri` of the query
  pub offer_uri_of : String → Result String String
  -- `url.Parse`, and the scheme
  pub scheme_of : String → Result String String
  pub trim_space : String → String
  pub base : String → String
  pub sha256_hex : String → String
  -- `jws.Verify` and `jws.Parse`
  pub verify : String → Result String String
  pub parse : String → Option String
  pub decode_any : String → Option J
  pub decode_fields : String → PayloadFields

pub record ImportResponse : Type 0 where
  pub vc_id : String
  pub issuer : String
  pub types : List String
  pub stored : Bool

pub record ShowResponse (J : Type 0) : Type 0 where
  pub meta : VerifiableCredential
  pub payload : Option J
  pub valid : Bool

pub record VerifyResponse (J : Type 0) : Type 0 where
  pub valid : Bool
  pub payload : Option J
  pub error : String

abbrev pub deeplink_scheme : String
deeplink_scheme = "openid-credential-offer://"

-- `v, _ := m[k].(string)`
unfoldable pub text_or_empty : Option Any → String
text_or_empty (some (str s)) = s
text_or_empty _ = ""

-- The code of the grant, or the empty text.
unfoldable pub code_of : Option Grant → String
unfolding text_or_empty
code_of (some (grant_object m)) = text_or_empty (Dict.get "pre-authorized_code" m)
code_of _ = ""

unfoldable pub pre_code : OfferDocument → String
unfolding code_of
pre_code offer = code_of (Dict.get grant_pre_authorized offer.grants)

unfoldable pub error_string : Result String String → String
error_string (err e) = e
error_string (ok payload) = ""

module _ {J : Type 0} (outside : Outside J) where
  -- The credential of the offer at an address: the offer, a token for its code, and the credential
  -- for the token.
  unfoldable pub redeem_offer : String → Result Refusal CredentialResult
  unfolding refused pre_code
  redeem_offer url = do
    offer ←
        refused 400 "offer fetch failed: " (λ e. e)
          (json_answer outside.status_text outside.decode_offer url (outside.get url))
    let pre = pre_code offer
    guard (not (pre == "")) (400, "offer missing pre-authorized_code")
    let token_url = offer.credential_issuer ⧺ "/oidc4vci/token"
    token ←
        refused 400 "token failed: " (λ e. e)
          (json_answer outside.status_text outside.decode_token token_url (
            outside.post token_url
              (record { grant_type = grant_pre_authorized; pre_authorized_code = pre })))
    let credential_url = offer.credential_issuer ⧺ "/oidc4vci/credential"
    refused 400 "credential failed: " (λ e. e)
        (json_answer outside.status_text outside.decode_credential credential_url
          (outside.post_authorized credential_url token.access_token))

  -- The payload of a credential whose signature verifies.
  unfoldable pub verified : String → Option String
  verified raw = elim (outside.verify raw) [ err e ↦ none | ok payload ↦ some payload ]

  -- `_ = json.Unmarshal(msg, &payload)`
  unfoldable pub payload_of : Option String → Option J
  payload_of none = none
  payload_of (some msg) = outside.decode_any msg

  -- `_ = json.Unmarshal(msg, &pl)`
  unfoldable pub fields_of : Option String → PayloadFields
  fields_of none = record { iss = ""; sub = ""; types = [] }
  fields_of (some msg) = outside.decode_fields msg

  unfoldable pub credential_for : ℕ → (format raw : String) → VerifiableCredential
  unfolding verified fields_of
  credential_for now format raw =
      let pl = fields_of (verified raw) in
      record {
        id = outside.sha256_hex raw;
        format = format;
        raw = raw;
        issuer = pl.iss;
        subject = pl.sub;
        types = pl.types;
        created_at = now;
      }

  -- The address behind a deeplink; `none` is the nil pointer that `HandleWalletImportOffer` takes
  -- the query of if the deeplink does not parse.
  unfoldable pub import_uri : String → Option (Result Refusal String)
  unfolding begins
  import_uri offer =
      if begins deeplink_scheme offer
      then elim (outside.offer_uri_of offer) [
        | err e ↦ none
        | ok uri ↦
            some (if uri == "" then err (400, "deeplink without credential_offer_uri") else ok uri)
      ]
      else some (ok offer)

  unfoldable pub store_offered :
      ℕ → VcStore → Result Refusal CredentialResult → VcStore × Result Refusal ImportResponse
  unfolding credential_for
  store_offered now m (err e) = (m, err e)
  store_offered now m (ok res) =
      let vc = credential_for now res.format res.credential in
      (
        save vc m,
        ok (record { vc_id = vc.id; issuer = vc.issuer; types = vc.types; stored = true }),
      )

  -- `none` is a panic, which net/http turns into a closed connection.
  unfoldable pub handle_wallet_import_offer :
      ℕ → Result String String → VcStore → Option (VcStore × Result Refusal ImportResponse)
  unfolding import_uri store_offered redeem_offer
  handle_wallet_import_offer now (err e) m = some (m, err (400, "bad json: " ⧺ e))
  handle_wallet_import_offer now (ok offer) m =
      if offer == "" then some (m, err (400, "missing offer")) else elim (import_uri offer) [
        | none ↦ none
        | some uri ↦ some (store_offered now m (uri >>= redeem_offer))
      ]

  unfoldable pub handle_wallet_list : VcStore → List VerifiableCredential
  handle_wallet_list m = list m

  -- Whether the signature verifies, and the payload, which is read without it if it does not.
  unfoldable pub opened : String → Bool × Option String
  opened raw = elim (outside.verify raw) [
    | err e ↦ (false, outside.parse raw)
    | ok payload ↦ (true, some payload)
  ]

  unfoldable pub handle_wallet_show : HttpRequest → VcStore → Result Refusal (ShowResponse J)
  unfolding opened payload_of
  handle_wallet_show r m = do
    vc ← or_err (get (outside.base r.path) m) (404, "not found")
    let (valid, msg) = opened vc.raw
    ok (record { meta = vc; payload = payload_of msg; valid = valid })

  unfoldable pub handle_wallet_verify : Result String String → Result Refusal (VerifyResponse J)
  unfolding refused opened payload_of error_string
  handle_wallet_verify body = do
    raw ← refused 400 "bad json: " (λ e. e) body
    guard (not (raw == "")) (400, "missing credential")
    let (valid, msg) = opened raw
    ok (record {
      valid = valid;
      payload = payload_of msg;
      error = error_string (outside.verify raw);
    })
