-- ===== src/Wallet.antt =====
-- system/zk-wallet-go: the wallet server, which is also the issuer of its credentials. The state is
-- that of internal/app/config/config.go, in memory; an instant is a number of Unix seconds. What a
-- call needs from outside is an argument: the time, the random strings, the identity provider.
pub mod Login
pub mod Issuance
pub mod Calls
pub mod Store
pub mod Import
pub mod Url
pub mod Claims
pub mod Http
pub mod Proving
pub mod Create
pub mod Proxy
pub mod Samples
mod Tests
use digital_identity_system.Prelude.{ℕ, String, Option, none, some, List, [], Result, err, or_err}
use digital_identity_system.Prelude.Int.{ℤ}
use digital_identity_system.Dict
use digital_identity_system.Dict.{Dict}

pub record Session : Type 0 where
  pub sub : String
  pub email : String
  pub name : String

pub record Preauth : Type 0 where
  pub code : String
  pub user : Session
  pub expires_at : ℕ

pub record AccessRec : Type 0 where
  pub token : String
  pub user : Session
  pub c_nonce : String
  pub exp : ℕ

-- The addresses that the environment configures.
pub record Config : Type 0 where
  pub issuer_base_url : String
  pub zkp_verifier_base_url : String
  pub issuer_key_id : String
  pub redirect_uri : String
  pub dsnet_logout : String
  pub end_session_endpoint : String
  pub scopes : List String

-- The in-memory maps.
pub record Server : Type 0 where
  pub sess_store : Dict Session
  pub pkce_store : Dict String
  pub preauth_store : Dict Preauth
  pub access_store : Dict AccessRec

unfoldable pub new_server : Server
new_server = record { sess_store = []; pkce_store = []; preauth_store = []; access_store = [] }

abbrev pub cookie_name_session : String
cookie_name_session = "sid"

abbrev pub cookie_name_pkce : String
cookie_name_pkce = "pkce_verifier"

abbrev pub cookie_name_state : String
cookie_name_state = "oidc_state"

abbrev pub cookie_name_nonce : String
cookie_name_nonce = "oidc_nonce"

-- What the handlers read of an `http.Request`, its body apart.
pub record HttpRequest : Type 0 where
  pub method : String
  pub path : String
  pub query : Dict String
  pub headers : Dict String
  pub cookies : Dict String

-- `Query().Get` and `Header.Get`: a missing key reads as the empty text.
unfoldable pub get_text : String → Dict String → String
get_text key values = elim (Dict.get key values) [ none ↦ "" | some v ↦ v ]

-- `http.SetCookie`; a `max_age` of 0 is left out, a negative one deletes the cookie.
pub record SetCookie : Type 0 where
  pub name : String
  pub value : String
  pub max_age : ℤ

unfoldable pub current_session : HttpRequest → Server → Result String Session
current_session r s = elim (Dict.get cookie_name_session r.cookies) [
  | none ↦ err "no cookie"
  | some sid ↦ or_err (Dict.get sid s.sess_store) "not found"
]
