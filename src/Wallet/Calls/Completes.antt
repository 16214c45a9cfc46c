-- ===== src/Wallet/Calls/Completes.antt =====
-- An offer of system/zk-wallet-go leads to a credential.
use digital_identity_system.Prelude.{
  ℕ, ◌+◌, ◌≤◌, String, ◌≡◌, refl, ap, ◌∙◌, true, some, List, ok, eq_refl,
}
use digital_identity_system.Prelude.Int.{ℤ}
use digital_identity_system.Dict
use digital_identity_system.Dict.{get-put, get-remove}
use digital_identity_system.Presentation.Verify.{◌⧺◌}
use digital_identity_system.Wallet.{
  Session, Preauth, AccessRec, Config, Server, HttpRequest, current_session, get_text,
}
use digital_identity_system.Wallet.Issuance.{
  Signer, TokenRequest, token, credential, handle_create_offer, offered, offer_uri, offer_for,
  offer_to, handle_vci_token, redeem_live, redeem, grant_pre_authorized, handle_vci_credential,
  issue_live, issue, signed, claims_for,
}
use digital_identity_system.Wallet.Issuance.Laws.{live_preauth_stored, live_access_stored}
use digital_identity_system.Wallet.Calls.{Call, run}
use digital_identity_system.Wallet.Calls.Frame.{
  DrawsOtherCode, DrawsOtherToken, RedeemsOther, EachCall, run_keeps_code, run_keeps_token,
}

module _ (config : Config) (signer : Signer) (s : Server) where
  handle_create_offer_ok :
      (now : ℕ) (code : String) (r : HttpRequest) (user : Session)
      → r.method ≡ "POST"
      → current_session r s ≡ ok user
      → handle_create_offer config signer now code r s ≡ offer_to config signer now code s user
  unfolding handle_create_offer offer_for
  handle_create_offer_ok now code r user post session = simp (post, session)

  offered_code :
      (now : ℕ) (code : String) (user : Session)
      → Dict.get code (offer_to config signer now code s user).0.preauth_store
        ≡ some (record { code = code; user = user; expires_at = now + 300 })
  unfolding offer_to
  offered_code now code user = simp (get-put, eq_refl)

  pub redeemed :
      (now : ℕ) (drawn c_nonce : String) (body : TokenRequest) (pa : Preauth)
      → body.grant_type ≡ grant_pre_authorized
      → Dict.get body.pre_authorized_code s.preauth_store ≡ some pa
      → now ≤ pa.expires_at
      → handle_vci_token now drawn c_nonce (some body) s
        ≡ redeem now drawn c_nonce body.pre_authorized_code s pa
  unfolding handle_vci_token redeem_live
  redeemed now drawn c_nonce body pa grant stored in_time =
      simp (grant, live_preauth_stored now body.pre_authorized_code s pa stored in_time)

  pub redeemed_token :
      (now : ℕ) (drawn c_nonce code : String) (pa : Preauth)
      → Dict.get ("atk_" ⧺ drawn) (redeem now drawn c_nonce code s pa).0.access_store
        ≡ some
            (record { token = "atk_" ⧺ drawn; user = pa.user; c_nonce = c_nonce; exp = now + 300 })
  unfolding redeem
  redeemed_token now drawn c_nonce code pa = simp (get-put, eq_refl)

  issue_parsed :
      (now : ℕ) (rec : AccessRec) (birth : ℤ)
      → signer.parse_date "2004-05-10" ≡ some birth
      → issue config signer now rec
        ≡ signed (
            signer.sign
              (record { alg = "EdDSA"; kid = config.issuer_key_id; typ = "vc+jwt" })
              (claims_for config signer now rec.user birth))
  unfolding issue
  issue_parsed now rec birth parsed = rw (parsed, issue) refl

  pub issued :
      (now : ℕ) (r : HttpRequest) (at jws : String) (rec : AccessRec) (birth : ℤ)
      → signer.has_prefix (get_text "Authorization" r.headers) "Bearer " ≡ true
      → signer.trim_space (signer.trim_prefix (get_text "Authorization" r.headers) "Bearer ") ≡ at
      → Dict.get at s.access_store ≡ some rec
      → now ≤ rec.exp
      → signer.parse_date "2004-05-10" ≡ some birth
      → signer.sign
          (record { alg = "EdDSA"; kid = config.issuer_key_id; typ = "vc+jwt" })
          (claims_for config signer now rec.user birth)
        ≡ ok jws
      → handle_vci_credential config signer now r s ≡ credential "jwt_vc_json" jws
  unfolding handle_vci_credential issue_live signed
  issued now r at jws rec birth bearer named stored in_time parsed good =
      simp (bearer, named, live_access_stored now at s rec stored in_time)
        (issue_parsed now rec birth parsed ∙ ap signed good)

-- Let a user with a session ask for an offer by POST, and a wallet ask for a token with the code at
-- most 300 seconds later, and for a credential with the token at most 300 seconds after that; let
-- no call before the token request draw the code again or redeem it, and no call before the
-- credential request draw the token again. Then the offer is answered with its URI and deeplink,
-- the code with the token, and the token with the credential that is signed over the claims of
-- that user, if the date and the signature succeed. Other calls may come between, the user's
-- logout included.
pub offer_leads_to_credential :
    (config : Config) (signer : Signer) (s : Server) (user : Session) (asked : ℕ) (code : String)
    (r : HttpRequest)
    → r.method ≡ "POST"
    → current_session r s ≡ ok user
    → let (s1, a1) = handle_create_offer config signer asked code r s in
      (before : List (ℕ × Call))
      → EachCall (λ call. DrawsOtherCode code call × RedeemsOther code call) before
      → (redeemed_at : ℕ) (drawn c_nonce : String) (body : TokenRequest)
      → body.grant_type ≡ grant_pre_authorized
      → body.pre_authorized_code ≡ code
      → redeemed_at ≤ asked + 300
      → let (s2, a2) =
          handle_vci_token redeemed_at drawn c_nonce (some body) (run config before s1) in
        (between : List (ℕ × Call))
        → EachCall (DrawsOtherToken ("atk_" ⧺ drawn)) between
        → (now : ℕ) (q : HttpRequest) (jws : String) (birth : ℤ)
        → signer.has_prefix (get_text "Authorization" q.headers) "Bearer " ≡ true
        → signer.trim_space (signer.trim_prefix (get_text "Authorization" q.headers) "Bearer ")
          ≡ "atk_" ⧺ drawn
        → now ≤ redeemed_at + 300
        → signer.parse_date "2004-05-10" ≡ some birth
        → signer.sign
            (record { alg = "EdDSA"; kid = config.issuer_key_id; typ = "vc+jwt" })
            (claims_for config signer now user birth)
          ≡ ok jws
        → (a1
            ≡ offered (offer_uri config signer code) (
                "openid-credential-offer://?credential_offer_uri="
                ⧺ signer.query_escape (offer_uri config signer code)))
          × (a2
              ≡ token (record {
                access_token = "atk_" ⧺ drawn;
                token_type = "bearer";
                expires_in = 300;
                c_nonce = c_nonce;
                c_nonce_expires_in = 300;
              }))
          × (handle_vci_credential config signer now q (run config between s2)
              ≡ credential "jwt_vc_json" jws)
unfolding offer_to redeem
offer_leads_to_credential config signer s user asked code r post session before kept redeemed_at
      drawn c_nonce body grant named in_time between others now q jws birth bearer trimmed later
      parsed good =
    let pa : Preauth = record { code = code; user = user; expires_at = asked + 300 } in
    let s1 = (handle_create_offer config signer asked code r s).0 in
    let e1 = handle_create_offer_ok config signer s asked code r user post session in
    let stored1 : Dict.get body.pre_authorized_code (run config before s1).preauth_store ≡ some pa =
      rw named (
        run_keeps_code config code before s1 kept
        ∙ ap (λ p. Dict.get code p.0.preauth_store) e1
        ∙ offered_code config signer s asked code user) in
    let e2 =
      redeemed config signer (run config before s1) redeemed_at drawn c_nonce body pa grant stored1
        in_time in
    let s2 = (handle_vci_token redeemed_at drawn c_nonce (some body) (run config before s1)).0 in
    let stored2 =
      run_keeps_token config ("atk_" ⧺ drawn) between s2 others
      ∙ ap (λ p. Dict.get ("atk_" ⧺ drawn) p.0.access_store) e2
      ∙ redeemed_token config signer (run config before s1) redeemed_at drawn c_nonce
          body.pre_authorized_code pa in
    (
      ap (λ p. p.1) e1,
      ap (λ p. p.1) e2,
      issued config signer (run config between s2) now q ("atk_" ⧺ drawn) jws _ birth bearer trimmed
          stored2 later parsed good,
    )
