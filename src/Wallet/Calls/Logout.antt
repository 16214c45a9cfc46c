-- ===== src/Wallet/Calls/Logout.antt =====
-- The end of a session of system/zk-wallet-go.
use digital_identity_system.Prelude.{
  ℕ, String, ◌≡◌, ap, inl, inr, false, not, ◌&&◌, ◌==◌, Option, none, some, List, [], ◌∷◌, arith,
  Result, ok, err, or_err, Bool-cases, Option-cases, eq_refl,
}
use digital_identity_system.Dict
use digital_identity_system.Dict.{get-put, get-remove}
use digital_identity_system.Wallet.{
  Session, Preauth, Config, Server, HttpRequest, current_session, cookie_name_session,
}
use digital_identity_system.Wallet.Login.{
  Provider, failure, handle_login, handle_callback, handle_logout, begin_session, drop_session,
  authenticate, handle_me, me_reply,
}
use digital_identity_system.Wallet.Issuance.{
  Signer, TokenRequest, handle_create_offer, offer_for, offer_to, handle_vci_token, redeem_live,
  redeem, live_preauth, grant_pre_authorized,
}
use digital_identity_system.Wallet.Issuance.{VciReply}
use digital_identity_system.Wallet.Calls.{
  Call, logs_in, calls_back, logs_out, offers, redeems, step, run,
}
use digital_identity_system.Wallet.Calls.Frame.{EachCall}

-- A callback draws another session id than this.
abbrev pub DrawsOtherSession : String → Call → Type 0
DrawsOtherSession sid (calls_back provider drawn r) = (drawn == sid) ≡ false
DrawsOtherSession sid call = Unit

module _ (sid : String) where
  abbrev IsOut : Server → Type 0
  IsOut s = Dict.get sid s.sess_store ≡ none

  module _ (config : Config) (now : ℕ) (s : Server) (out : IsOut s) where
    handle_login-IsOut :
        (provider : Provider) (ver nonce state : String) (r : HttpRequest)
        → IsOut (handle_login config provider ver nonce state r s).0
    unfolding handle_login
    handle_login-IsOut provider ver nonce state r = elim (Bool-cases (r.method == "GET")) [
      | inl e ↦ simp e out
      | inr e ↦ simp e out
    ]

    begin_session-IsOut :
        (drawn : String) (r : HttpRequest) (answer : Result String Session)
        → (drawn == sid) ≡ false
        → IsOut (begin_session drawn r s answer).0
    unfolding begin_session
    begin_session-IsOut drawn r (err e) other = out
    begin_session-IsOut drawn r (ok user) other = simp (get-put, other) out

    handle_callback-IsOut :
        (provider : Provider) (drawn : String) (r : HttpRequest)
        → (drawn == sid) ≡ false
        → IsOut (handle_callback config provider drawn r s).0
    unfolding handle_callback
    handle_callback-IsOut provider drawn r other = elim (Bool-cases (r.method == "GET")) [
      | inl e ↦ simp e (begin_session-IsOut drawn r (authenticate config provider r s) other)
      | inr e ↦ simp e out
    ]

    drop_session-IsOut : (r : HttpRequest) → IsOut (drop_session r s)
    unfolding drop_session
    drop_session-IsOut r = elim (Option-cases (Dict.get cookie_name_session r.cookies)) [
      | inl e ↦ rw (e, drop_session) out
      | inr (own, e) ↦ rw (e, drop_session) (ground (arith, get-remove own sid s.sess_store))
    ]

    handle_logout-IsOut :
        (provider : Provider) (r : HttpRequest) → IsOut (handle_logout config provider r s).0
    unfolding handle_logout
    handle_logout-IsOut provider r =
        elim (Bool-cases (not (r.method == "GET") && not (r.method == "POST"))) [
          | inl e ↦ simp e out
          | inr e ↦ simp e (drop_session-IsOut r)
        ]

    offer_for-IsOut :
        (signer : Signer) (code : String) (answer : Result String Session)
        → IsOut (offer_for config signer now code s answer).0
    unfolding offer_for offer_to
    offer_for-IsOut signer code (err e) = out
    offer_for-IsOut signer code (ok user) = out

    handle_create_offer-IsOut :
        (signer : Signer) (code : String) (r : HttpRequest)
        → IsOut (handle_create_offer config signer now code r s).0
    unfolding handle_create_offer
    handle_create_offer-IsOut signer code r = elim (Bool-cases (r.method == "POST")) [
      | inl e ↦ simp e (offer_for-IsOut signer code (current_session r s))
      | inr e ↦ simp e out
    ]

    redeem_live-IsOut :
        (drawn c_nonce code : String) (found : Option Preauth)
        → IsOut (redeem_live now drawn c_nonce code s found).0
    unfolding redeem_live redeem
    redeem_live-IsOut drawn c_nonce code none = out
    redeem_live-IsOut drawn c_nonce code (some pa) = out

    handle_vci_token-IsOut :
        (drawn c_nonce : String) (body : Option TokenRequest)
        → IsOut (handle_vci_token now drawn c_nonce body s).0
    unfolding handle_vci_token
    handle_vci_token-IsOut drawn c_nonce none = out
    handle_vci_token-IsOut drawn c_nonce (some body) =
        elim (Bool-cases (body.grant_type == grant_pre_authorized)) [
          | inl e ↦ simp e (
              redeem_live-IsOut drawn c_nonce body.pre_authorized_code
                (live_preauth now body.pre_authorized_code s))
          | inr e ↦ simp e out
        ]

    step-IsOut : (call : Call) → DrawsOtherSession sid call → IsOut (step config now call s)
    unfolding step
    step-IsOut (logs_in provider ver nonce state r) d =
        handle_login-IsOut provider ver nonce state r
    step-IsOut (calls_back provider drawn r) d = handle_callback-IsOut provider drawn r d
    step-IsOut (logs_out provider r) d = handle_logout-IsOut provider r
    step-IsOut (offers signer code r) d = handle_create_offer-IsOut signer code r
    step-IsOut (redeems drawn c_nonce body) d = handle_vci_token-IsOut drawn c_nonce body

  run-IsOut :
      (config : Config) (calls : List (ℕ × Call)) (s : Server)
      → EachCall (DrawsOtherSession sid) calls
      → IsOut s
      → IsOut (run config calls s)
  unfolding run
  run-IsOut config [] s d out = out
  run-IsOut config ((now, call) ∷ calls) s (d, ds) out =
      run-IsOut config calls (step config now call s) ds (step-IsOut config now s out call d)

  current_session-IsOut :
      (r : HttpRequest) (s : Server)
      → Dict.get cookie_name_session r.cookies ≡ some sid
      → IsOut s
      → current_session r s ≡ err "not found"
  unfolding current_session
  current_session-IsOut r s cookie out =
      rw (cookie, current_session) (ap (λ o. or_err o "not found") out)

  drop_session-IsOut' :
      (r : HttpRequest) (s : Server)
      → Dict.get cookie_name_session r.cookies ≡ some sid
      → IsOut (drop_session r s)
  unfolding drop_session
  drop_session-IsOut' r s cookie =
      rw (cookie, drop_session) (ground (arith, get-remove sid sid s.sess_store, eq_refl sid))

  handle_logout-IsOut' :
      (config : Config) (provider : Provider) (r : HttpRequest) (s : Server)
      → r.method ≡ "GET"
      → Dict.get cookie_name_session r.cookies ≡ some sid
      → IsOut (handle_logout config provider r s).0
  unfolding handle_logout
  handle_logout-IsOut' config provider r s get cookie = simp (get) (drop_session-IsOut' r s cookie)

-- A logout by GET ends the session of its cookie: after it and any calls in which no callback draws
-- the same session id, a request with that cookie is no longer the user's: sent by GET, `HandleMe`
-- answers it with status 401, and sent by POST, so does `HandleCreateOffer`, which changes nothing.
pub logout_ends_session :
    (config : Config) (provider : Provider) (r : HttpRequest) (s : Server) (sid : String)
    → r.method ≡ "GET"
    → Dict.get cookie_name_session r.cookies ≡ some sid
    → (calls : List (ℕ × Call)) → EachCall (DrawsOtherSession sid) calls
    → (q : HttpRequest) → Dict.get cookie_name_session q.cookies ≡ some sid
    → (signer : Signer) (now : ℕ) (code : String)
    → let t = run config calls (handle_logout config provider r s).0 in
      (handle_me (record q { method = "GET" }) t ≡ failure 401 "unauthorized")
      × (handle_create_offer config signer now code (record q { method = "POST" }) t
          ≡ (t, VciReply.failure 401 "unauthorized"))
unfolding handle_me handle_create_offer offer_for
logout_ends_session config provider r s sid get cookie calls d q same signer now code =
    let t = run config calls (handle_logout config provider r s).0 in
    let out =
      run-IsOut sid config calls (handle_logout config provider r s).0 d
        (handle_logout-IsOut' sid config provider r s get cookie) in
    (
      ap me_reply (current_session-IsOut sid (record q { method = "GET" }) t same out),
      ap (offer_for config signer now code t)
          (current_session-IsOut sid (record q { method = "POST" }) t same out),
    )
