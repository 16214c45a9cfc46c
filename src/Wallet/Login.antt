-- ===== src/Wallet/Login.antt =====
-- internal/app/handlers/auth_handlers.go: the login at the identity provider, the logout and the
-- session of the caller.
use digital_identity_system.Prelude.{
  String, Bool, false, not, ◌&&◌, Option, none, some, List, [], ◌∷◌, ◌==◌, ℕ, if◌then◌else◌, Result,
  ok, err,
}
use digital_identity_system.Prelude.Int.{ℤ, pos, negsuc}
use digital_identity_system.Dict
use digital_identity_system.Dict.{Dict}
use digital_identity_system.Presentation.Verify.{◌⧺◌}
use digital_identity_system.Wallet.{
  Session, Config, Server, HttpRequest, get_text, SetCookie, cookie_name_session, cookie_name_pkce,
  cookie_name_state, cookie_name_nonce, current_session,
}

-- The claims of an ID token that the callback reads.
pub record Claims : Type 0 where
  pub sub : String
  pub email : String
  pub name : String
  pub nonce : String

-- `id_token` is `none` where the extra field is missing or not a text.
pub record Token : Type 0 where
  pub access_token : String
  pub id_token : Option String

pub record UserInfo : Type 0 where
  pub subject : String
  pub email : String
  pub name : String

-- The parameters of `AuthCodeURL`.
pub record AuthParams : Type 0 where
  pub state : String
  pub code_challenge : String
  pub code_challenge_method : String
  pub prompt : String
  pub max_age : String
  pub nonce : String
  pub scope : String

-- golang.org/x/oauth2 and go-oidc with the provider behind them, net/url, crypto/sha256 and
-- encoding/base64. The claims of a verified token may fail to parse.
pub record Provider : Type 0 where
  pub auth_code_url : AuthParams → String
  pub exchange : (code verifier redirect : String) → Result String Token
  pub verify : String → Result String (Result String Claims)
  pub user_info : Token → Result String UserInfo
  pub join : List String → String → String
  -- the unpadded Base64 URL encoding of the SHA-256 sum
  pub challenge_of : String → String
  pub query_escape : String → String
  pub contains : String → String → Bool
  -- the URL with one query parameter set
  pub with_query : (url key value : String) → String

pub data Reply : Type 0 where
  failure : ℕ → String → Reply
  redirect : String → Reply
  me : Session → Reply

pub record Response : Type 0 where
  pub cookies : List SetCookie
  pub reply : Reply

abbrev pub fails : ℕ → String → Response
fails code message = record { cookies = []; reply = failure code message }

abbrev pub session_cookie : String → ℤ → SetCookie
session_cookie value age = record { name = cookie_name_session; value = value; max_age = age }

-- A cookie of the flow, with no age.
abbrev flow_cookie : String → String → SetCookie
flow_cookie name value = record { name = name; value = value; max_age = pos 0 }

-- A cookie that is deleted: a `max_age` of -1.
unfoldable pub clear_cookie : String → SetCookie
clear_cookie name = record { name = name; value = ""; max_age = negsuc 0 }

-- The PKCE verifier: of the cookie, or else the one stored for the state.
unfoldable pub pkce_val : HttpRequest → Server → String
unfolding get_text
pkce_val r s =
    let of_cookie = get_text cookie_name_pkce r.cookies in
    if of_cookie == "" then get_text (get_text "state" r.query) s.pkce_store else of_cookie

-- Whether the nonce cookie contradicts the claim: both are there, and they differ.
unfoldable pub nonce_mismatch : HttpRequest → Claims → Bool
nonce_mismatch r claims = elim (Dict.get cookie_name_nonce r.cookies) [
  | none ↦ false
  | some nonce ↦ not (claims.nonce == "") && not (claims.nonce == nonce)
]

unfoldable pub user_of_claims :
    HttpRequest → Result String (Result String Claims) → Result String Session
unfolding nonce_mismatch
user_of_claims r (err e) = err ("id_token verify failed: " ⧺ e)
user_of_claims r (ok (err e)) = err ("claims parse: " ⧺ e)
user_of_claims r (ok (ok claims)) =
    if nonce_mismatch r claims
    then err "nonce mismatch"
    else ok (record { sub = claims.sub; email = claims.email; name = claims.name })

unfoldable pub user_of_info : Result String UserInfo → Result String Session
user_of_info (err e) = err ("userinfo fetch failed: " ⧺ e)
user_of_info (ok info) =
    if info.subject == ""
    then err "userinfo missing sub"
    else ok (record { sub = info.subject; email = info.email; name = info.name })

-- The rest of the callback; `sid` is the random session id.
unfoldable pub begin_session :
    String → HttpRequest → Server → Result String Session → Server × Response
unfolding get_text clear_cookie
begin_session sid r s (err message) = (s, fails 400 message)
begin_session sid r s (ok user) = (
  record s {
    sess_store = Dict.put sid user s.sess_store;
    pkce_store = Dict.remove (get_text "state" r.query) s.pkce_store;
  },
  record {
    cookies =
        clear_cookie cookie_name_pkce
        ∷ clear_cookie cookie_name_state
        ∷ clear_cookie cookie_name_nonce
        ∷ session_cookie sid (pos 3600)
        ∷ [];
    reply = redirect "/offer.html";
  },
)

unfoldable pub drop_session : HttpRequest → Server → Server
drop_session r s = elim (Dict.get cookie_name_session r.cookies) [
  | none ↦ s
  | some sid ↦ record s { sess_store = Dict.remove sid s.sess_store }
]

module _ (provider : Provider) where
  -- The user of a token: by its ID token, or by the user-info endpoint where it has none.
  unfoldable pub user_of_id_token :
      HttpRequest → Token → (id_token : Option String) → Result String Session
  unfolding user_of_claims user_of_info
  user_of_id_token r token none = user_of_info (provider.user_info token)
  user_of_id_token r token (some raw) =
      if raw == ""
      then user_of_info (provider.user_info token)
      else user_of_claims r (provider.verify raw)

  unfoldable pub user_of_token : HttpRequest → Token → Result String Session
  unfolding user_of_id_token
  user_of_token r token = user_of_id_token r token token.id_token

  unfoldable pub user_of_exchange : HttpRequest → Result String Token → Result String Session
  unfolding user_of_token
  user_of_exchange r (err e) = err ("token exchange failed: " ⧺ e)
  user_of_exchange r (ok token) = user_of_token r token

module _ (config : Config) (provider : Provider) where
  -- `ver`, `nonce` and `state` are the random strings, in the order in which they are drawn.
  unfoldable pub handle_login :
      (ver nonce state : String) → HttpRequest → Server → Server × Response
  handle_login ver nonce state r s =
      let params : AuthParams = record {
        state = state;
        code_challenge = provider.challenge_of ver;
        code_challenge_method = "S256";
        prompt = "login";
        max_age = "0";
        nonce = nonce;
        scope = provider.join config.scopes " ";
      } in
      let response : Response = record {
        cookies =
            flow_cookie cookie_name_pkce ver
            ∷ flow_cookie cookie_name_state state
            ∷ flow_cookie cookie_name_nonce nonce
            ∷ [];
        reply = redirect (provider.auth_code_url params);
      } in
      if not (r.method == "GET")
      then (s, fails 405 "method not allowed")
      else (record s { pkce_store = Dict.put state ver s.pkce_store }, response)

  -- The callback up to the session: the user, or the message of a 400. A state that does not match
  -- its cookie is only logged, so it does not occur here.
  unfoldable pub authenticate : HttpRequest → Server → Result String Session
  unfolding pkce_val user_of_exchange
  authenticate r s =
      if get_text "code" r.query == ""
      then err "missing code"
      else if pkce_val r s == ""
      then err "missing pkce verifier"
      else user_of_exchange provider r
          (provider.exchange (get_text "code" r.query) (pkce_val r s) config.redirect_uri)

  unfoldable pub handle_callback : String → HttpRequest → Server → Server × Response
  unfolding authenticate begin_session
  handle_callback sid r s =
      if not (r.method == "GET")
      then (s, fails 405 "method not allowed")
      else begin_session sid r s (authenticate r s)

  -- Where a logout redirects to.
  unfoldable pub logout_target : String
  logout_target =
      let mark = if provider.contains config.end_session_endpoint "?" then "&" else "?" in
      if not (config.dsnet_logout == "")
      then provider.with_query config.dsnet_logout "post_logout_redirect_uri" config.issuer_base_url
      else if not (config.end_session_endpoint == "")
      then config.end_session_endpoint
        ⧺ mark
        ⧺ "post_logout_redirect_uri="
        ⧺ provider.query_escape config.issuer_base_url
      else "/"

  unfoldable pub handle_logout : HttpRequest → Server → Server × Response
  unfolding logout_target drop_session clear_cookie
  handle_logout r s =
      let response : Response = record {
        cookies =
            clear_cookie cookie_name_session
            ∷ clear_cookie cookie_name_pkce
            ∷ clear_cookie cookie_name_state
            ∷ clear_cookie cookie_name_nonce
            ∷ [];
        reply = redirect logout_target;
      } in
      if not (r.method == "GET") && not (r.method == "POST")
      then (s, fails 405 "method not allowed")
      else (drop_session r s, response)

unfoldable pub me_reply : Result String Session → Reply
me_reply (err _) = failure 401 "unauthorized"
me_reply (ok user) = me user

-- The answer of `HandleMe`.
unfoldable pub handle_me : HttpRequest → Server → Reply
unfolding current_session me_reply
handle_me r s =
    if not (r.method == "GET")
    then failure 405 "method not allowed"
    else me_reply (current_session r s)
