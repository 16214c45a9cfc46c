-- ===== src/Wallet/Samples.antt =====
-- Sample data of the wallet server: a provider that knows one user, an issuer that signs with the
-- subject's name, and a wallet with one credential.
use digital_identity_system.Prelude.{
  ℕ, String, true, false, none, some, List, [], ◌∷◌, ◌==◌, if◌then◌else◌, ok, err,
}
use digital_identity_system.Prelude.Int.{pos}
use digital_identity_system.Schema.{SchemaDefinition, field_type_integer, field_type_string}
use digital_identity_system.Circuit.Values.{int, text}
use digital_identity_system.Circuit.Samples.{field}
use digital_identity_system.Presentation.Types.{str, other, Any}
use digital_identity_system.Presentation.Env.{Env}
use digital_identity_system.Presentation.Samples.{test_env, busy, issued_request, links}
use digital_identity_system.Presentation.Handler.{describe}
use digital_identity_system.Wallet.{Session, Config, Server, HttpRequest, new_server}
use digital_identity_system.Wallet.Login.{Provider}
use digital_identity_system.Wallet.Issuance.{
  Signer, handle_create_offer, TokenRequest, Offer, TokenAnswer, grant_pre_authorized,
}
use digital_identity_system.Wallet.Calls.{Call, run, logs_in, calls_back, offers, redeems}
use digital_identity_system.Wallet.Store.{VerifiableCredential}
use digital_identity_system.Wallet.Claims.{Claim, leaf, object, empty, entry, Reader}
use digital_identity_system.Wallet.Proving.{Prover}
use digital_identity_system.Wallet.Create.{Verifier}
use digital_identity_system.Wallet.Create.Descriptor.{Web}
use digital_identity_system.Wallet.Import.{Outside}
use digital_identity_system.Wallet.Import.Offered.{document, token_result}
use digital_identity_system.Presentation.Verify.{◌⧺◌}

abbrev pub ada : Session
ada = record { sub = "ada"; email = ""; name = "" }

abbrev pub config : Config
config = record {
  issuer_base_url = "https://issuer";
  zkp_verifier_base_url = "https://verifier";
  issuer_key_id = "k1";
  redirect_uri = "https://issuer/callback";
  dsnet_logout = "";
  end_session_endpoint = "https://op/logout";
  scopes = "openid" ∷ [];
}

abbrev pub provider : Provider
provider = record {
  auth_code_url = λ p. p.state;
  exchange = λ c v r. ok (record { access_token = "at"; id_token = none });
  verify = λ _. err "no token";
  user_info = λ _. ok (record { subject = "ada"; email = ""; name = "" });
  join = λ _ _. "openid";
  challenge_of = λ s. s;
  query_escape = λ s. s;
  contains = λ _ _. false;
  with_query = λ u _ _. u;
}

abbrev pub signer : Signer
signer = record {
  base = λ _. "c1";
  has_prefix = λ s p. s == "Bearer atk_t1";
  trim_prefix = λ s p. "atk_t1";
  trim_space = λ s. s;
  query_escape = λ s. s;
  parse_date = λ _. some (pos 1084147200);
  format_rfc3339 = λ _. "now";
  sign = λ h c. ok c.sub;
}

abbrev pub request : String → HttpRequest
request method = record {
  method = method;
  path = "/";
  query = ("code", "x") ∷ ("state", "st") ∷ [];
  headers = ("Authorization", "Bearer atk_t1") ∷ [];
  cookies = ("sid", "s1") ∷ [];
}

abbrev pub token_request : TokenRequest
token_request = record { grant_type = grant_pre_authorized; pre_authorized_code = "c1" }

abbrev pub logging_in : List (ℕ × Call)
logging_in =
    (10, logs_in provider "v" "n" "st" (request "GET"))
    ∷ (12, calls_back provider "s1" (request "GET"))
    ∷ []

abbrev pub issuing : List (ℕ × Call)
issuing =
    (10, logs_in provider "v" "n" "st" (request "GET"))
    ∷ (12, calls_back provider "s1" (request "GET"))
    ∷ (20, offers signer "c1" (request "POST"))
    ∷ (30, redeems "t1" "cn" (some token_request))
    ∷ []

abbrev pub wallet_schema : SchemaDefinition
wallet_schema = record {
  schema_id = "s";
  version = "1";
  fields =
      field "birth_ts" field_type_integer false
      ∷ field "aud" field_type_string true
      ∷ field "nonce" field_type_string true
      ∷ [];
  constraints = [];
  field_index = [];
}

abbrev pub wallet_env : Env
wallet_env = record test_env { unmarshal_schema = λ _. some wallet_schema }

abbrev pub prover : Prover wallet_env
prover = record {
  FullWitness = ℕ;
  new_witness = λ _. some 9;
  public_part = some;
  read_pk = λ _. some 1;
  prove = λ _ _ _. some 7;
  print_object = λ _. "map";
}

abbrev pub reader : Reader ℕ
reader = record {
  jws_parse = some;
  unmarshal = λ raw. some (some (entry "birth_ts" (leaf (int (pos 1084147200))) empty));
  split = λ path. path ∷ [];
}

abbrev pub web : Web
web = record {
  get = λ url. ok (200, ok "{}");
  decode_descriptor = λ _. ok (describe wallet_env links busy (issued_request "r1"));
  trim_space = λ s. s;
  trim_right_slashes = λ s. s;
  status_text = λ _. "OK";
  status_and_body = λ _ _. "";
}

abbrev pub transfer : Claim ℕ → Any
transfer (leaf (text t)) = str t
transfer _ = other ""

abbrev pub verifier : Verifier ℕ
verifier = record {
  post = λ url sub. ok (200, "{}");
  decode = λ _. ok (object empty);
  base64_encode = λ _. "Bwk=";
  join = λ _. "";
  schema_error = λ _. "";
  prove_error = λ _. "";
}

abbrev pub credential : VerifiableCredential
credential = record {
  id = "h1";
  format = "jwt_vc_json";
  raw = "a.b.c";
  issuer = "https://issuer";
  subject = "ada";
  types = [];
  created_at = 40;
}

abbrev pub offered_c1 : Offer
offered_c1 = record {
  credential_issuer = "https://issuer";
  credential_configuration_ids = "StudentCredential_JWT_v1" ∷ [];
  pre_authorized_code = "c1";
}

abbrev pub token_t1 : TokenAnswer
token_t1 = record {
  access_token = "atk_t1";
  token_type = "bearer";
  expires_in = 300;
  c_nonce = "cn";
  c_nonce_expires_in = 300;
}

-- An issuer that hands out one credential, whose signature verifies.
abbrev pub outside : Outside String
outside = record {
  get = λ _. ok (200, "offer");
  post = λ _ _. ok (200, "token");
  post_authorized = λ _ _. ok (200, "credential");
  status_text = λ _. "OK";
  decode_offer = λ _. ok (document offered_c1);
  decode_token = λ _. ok (token_result token_t1);
  decode_credential = λ _. ok (record { format = "jwt_vc_json"; credential = "ada" });
  offer_uri_of = λ _. ok "https://issuer/oidc4vci/offer/c1";
  scheme_of = λ _. ok "https";
  trim_space = λ s. s;
  base = λ s. s;
  sha256_hex = λ s. "h:" ⧺ s;
  verify = λ s. if s == "ada" then ok "{}" else err "signature";
  parse = some;
  decode_any = some;
  decode_fields = λ _. record { iss = "https://issuer"; sub = "ada"; types = [] };
}

abbrev pub logged_in : Server
logged_in = run config logging_in new_server

abbrev pub with_offer : Server
with_offer = (handle_create_offer config signer 20 "c1" (request "POST") logged_in).0
