-- ===== src/Wallet/Issuance.antt =====
-- internal/app/handlers/vci_handlers.go: the OIDC4VCI issuer. A body that does not decode is
-- `none`; log lines are left out.
pub mod Laws
use digital_identity_system.Prelude.{
  ℕ, ◌+◌, String, Bool, true, false, not, ◌||◌, Option, none, some, List, [], ◌∷◌, ◌==◌, ltb,
  if◌then◌else◌, Result, ok, err,
}
use digital_identity_system.Prelude.Int.{ℤ}
use digital_identity_system.Dict
use digital_identity_system.Dict.{Dict}
use digital_identity_system.Presentation.Verify.{◌⧺◌}
use digital_identity_system.Wallet.{
  Session, Preauth, AccessRec, Config, Server, HttpRequest, get_text, current_session,
}

abbrev pub grant_pre_authorized : String
grant_pre_authorized = "urn:ietf:params:oauth:grant-type:pre-authorized_code"

-- The JSON object that `HandleOfferByCode` writes.
pub record Offer : Type 0 where
  pub credential_issuer : String
  pub credential_configuration_ids : List String
  pub pre_authorized_code : String

pub record TokenRequest : Type 0 where
  pub grant_type : String
  pub pre_authorized_code : String

pub record TokenAnswer : Type 0 where
  pub access_token : String
  pub token_type : String
  pub expires_in : ℕ
  pub c_nonce : String
  pub c_nonce_expires_in : ℕ

pub record CredentialSubject : Type 0 where
  pub id : String
  pub birth_ts : ℤ
  pub university : String

-- The payload of a credential.
pub record VcClaims : Type 0 where
  pub iss : String
  pub sub : String
  pub iat : ℕ
  pub nbf : ℕ
  pub context : List String
  pub types : List String
  pub issuer : String
  pub issuance_date : String
  pub credential_subject : CredentialSubject

pub record JwsHeaders : Type 0 where
  pub alg : String
  pub kid : String
  pub typ : String

-- path, strings, net/url, time and the JWS library with the issuer's key.
pub record Signer : Type 0 where
  pub base : String → String
  pub has_prefix : String → String → Bool
  pub trim_prefix : String → String → String
  pub trim_space : String → String
  pub query_escape : String → String
  pub parse_date : String → Option ℤ
  pub format_rfc3339 : ℕ → String
  pub sign : JwsHeaders → VcClaims → Result String String

pub data VciReply : Type 0 where
  failure : ℕ → String → VciReply
  offered : (credential_offer_uri deeplink : String) → VciReply
  offer : Offer → VciReply
  token : TokenAnswer → VciReply
  credential : (format credential : String) → VciReply

-- `NowUTC().After(t)`
unfoldable pub after : ℕ → ℕ → Bool
after now t = ltb t now

-- The pre-authorization of a code, unless it has expired.
unfoldable pub live_preauth : ℕ → String → Server → Option Preauth
unfolding after
live_preauth now code s = elim (Dict.get code s.preauth_store) [
  | none ↦ none
  | some pa ↦ if after now pa.expires_at then none else some pa
]

-- The access token of a pre-authorization; `drawn` and `c_nonce` are random strings.
unfoldable pub redeem : ℕ → (drawn c_nonce : String) → String → Server → Preauth → Server × VciReply
redeem now drawn c_nonce code s pa =
    let at = "atk_" ⧺ drawn in
    let rec : AccessRec = record {
      token = at;
      user = pa.user;
      c_nonce = c_nonce;
      exp = now + 300;
    } in
    (
      record s {
        access_store = Dict.put at rec s.access_store;
        preauth_store = Dict.remove code s.preauth_store;
      },
      token (record {
        access_token = at;
        token_type = "bearer";
        expires_in = 300;
        c_nonce = c_nonce;
        c_nonce_expires_in = 300;
      }),
    )

unfoldable pub redeem_live :
    ℕ → (drawn c_nonce : String) → String → Server → Option Preauth → Server × VciReply
unfolding redeem
redeem_live now drawn c_nonce code s none =
    (s, failure 400 "invalid or expired pre-authorized code")
redeem_live now drawn c_nonce code s (some pa) = redeem now drawn c_nonce code s pa

unfoldable pub handle_vci_token :
    ℕ → (drawn c_nonce : String) → Option TokenRequest → Server → Server × VciReply
unfolding live_preauth redeem_live
handle_vci_token now drawn c_nonce none s = (s, failure 400 "bad request")
handle_vci_token now drawn c_nonce (some body) s =
    if not (body.grant_type == grant_pre_authorized)
    then (s, failure 400 "unsupported grant")
    else redeem_live now drawn c_nonce body.pre_authorized_code s
        (live_preauth now body.pre_authorized_code s)

-- The record of an access token, unless it has expired.
unfoldable pub live_access : ℕ → String → Server → Option AccessRec
unfolding after
live_access now at s = elim (Dict.get at s.access_store) [
  | none ↦ none
  | some rec ↦ if after now rec.exp then none else some rec
]

unfoldable pub signed : Result String String → VciReply
signed (err e) = failure 500 ("sign failed: " ⧺ e)
signed (ok jws) = credential "jwt_vc_json" jws

module _ (config : Config) (signer : Signer) where
  unfoldable pub offer_uri : String → String
  offer_uri code = config.issuer_base_url ⧺ "/oidc4vci/offer/" ⧺ code

  unfoldable pub offer_to : ℕ → String → Server → Session → Server × VciReply
  unfolding offer_uri
  offer_to now code s user =
      let pa : Preauth = record { code = code; user = user; expires_at = now + 300 } in
      (
        record s { preauth_store = Dict.put code pa s.preauth_store },
        offered (offer_uri code) (
            "openid-credential-offer://?credential_offer_uri="
            ⧺ signer.query_escape (offer_uri code)),
      )

  unfoldable pub offer_for : ℕ → String → Server → Result String Session → Server × VciReply
  unfolding offer_to
  offer_for now code s (err _) = (s, failure 401 "unauthorized")
  offer_for now code s (ok user) = offer_to now code s user

  -- `code` is the random string of the offer.
  unfoldable pub handle_create_offer : ℕ → String → HttpRequest → Server → Server × VciReply
  unfolding offer_for
  handle_create_offer now code r s =
      if not (r.method == "POST")
      then (s, failure 405 "method not allowed")
      else offer_for now code s (current_session r s)

  unfoldable pub handle_offer_by_code : ℕ → HttpRequest → Server → VciReply
  unfolding live_preauth
  handle_offer_by_code now r s = elim (live_preauth now (signer.base r.path) s) [
    | none ↦ failure 400 "offer expired or invalid"
    | some pa ↦ offer (record {
      credential_issuer = config.issuer_base_url;
      credential_configuration_ids = "StudentCredential_JWT_v1" ∷ [];
      pre_authorized_code = signer.base r.path;
    })
  ]

  unfoldable pub claims_for : ℕ → Session → ℤ → VcClaims
  claims_for now user birth_ts = record {
    iss = config.issuer_base_url;
    sub = user.sub;
    iat = now;
    nbf = now;
    context = "https://www.w3.org/2018/credentials/v1" ∷ [];
    types = "VerifiableCredential" ∷ "AgeOver18Credential" ∷ [];
    issuer = config.issuer_base_url;
    issuance_date = signer.format_rfc3339 now;
    credential_subject = record { id = user.sub; birth_ts = birth_ts; university = "AGH" };
  }

  unfoldable pub issue : ℕ → AccessRec → VciReply
  unfolding claims_for signed
  issue now rec = elim (signer.parse_date "2004-05-10") [
    | none ↦ failure 500 "invalid birthdate"
    | some birth_ts ↦ signed (
        signer.sign (record { alg = "EdDSA"; kid = config.issuer_key_id; typ = "vc+jwt" })
          (claims_for now rec.user birth_ts))
  ]

  unfoldable pub issue_live : ℕ → Option AccessRec → VciReply
  unfolding issue
  issue_live now none = failure 401 "invalid token"
  issue_live now (some rec) = issue now rec

  unfoldable pub handle_vci_credential : ℕ → HttpRequest → Server → VciReply
  unfolding live_access issue_live get_text
  handle_vci_credential now r s =
      let auth = get_text "Authorization" r.headers in
      let at = signer.trim_space (signer.trim_prefix auth "Bearer ") in
      if not (signer.has_prefix auth "Bearer ")
      then failure 401 "unauthorized"
      else issue_live now (live_access now at s)
