-- ===== src/Wallet/Import/Offered.antt =====
-- The wallet and the issuer of system/zk-wallet-go together: the handlers of wallet_handlers.go
-- against those of vci_handlers.go.
use digital_identity_system.Prelude.{
  ℕ, ◌+◌, ◌≤◌, String, ◌≡◌, refl, ap, ◌∙◌, true, false, ◌==◌, some, List, [], ◌∷◌, ok,
}
use digital_identity_system.Prelude.Int.{ℤ, pos}
use digital_identity_system.Dict
use digital_identity_system.Presentation.Types.{str}
use digital_identity_system.Presentation.Verify.{◌⧺◌}
use digital_identity_system.Wallet.{Preauth, Config, Server, HttpRequest, get_text}
use digital_identity_system.Wallet.Issuance.{
  Signer, Offer, TokenRequest, TokenAnswer, offer, token, credential, handle_offer_by_code,
  handle_vci_token, handle_vci_credential, redeem, grant_pre_authorized, claims_for,
}
use digital_identity_system.Wallet.Issuance.Laws.{live_preauth_stored}
use digital_identity_system.Wallet.Calls.{Call, run}
use digital_identity_system.Wallet.Calls.Frame.{DrawsOtherToken, EachCall, run_keeps_token}
use digital_identity_system.Wallet.Calls.Completes.{redeemed, redeemed_token, issued}
use digital_identity_system.Wallet.Store.{VcStore, save}
use digital_identity_system.Wallet.Http.{json_answer}
use digital_identity_system.Wallet.Create.{refused}
use digital_identity_system.Wallet.Import.{
  OfferDocument, TokenResult, CredentialResult, Outside, grant_object, pre_code, redeem_offer,
  import_uri, credential_for, store_offered, handle_wallet_import_offer,
}

-- The document that the wallet decodes of an offer, and the token it decodes of an answer.
abbrev pub document : Offer → OfferDocument
document o = record {
  credential_issuer = o.credential_issuer;
  credential_configuration_ids = o.credential_configuration_ids;
  grants =
      (grant_pre_authorized, grant_object (("pre-authorized_code", str o.pre_authorized_code) ∷ []))
      ∷ [];
}

abbrev pub token_result : TokenAnswer → TokenResult
token_result t = record {
  access_token = t.access_token;
  token_type = t.token_type;
  expires_in = pos t.expires_in;
  c_nonce = t.c_nonce;
}

abbrev pub token_request_for : String → TokenRequest
token_request_for code = record { grant_type = grant_pre_authorized; pre_authorized_code = code }

pub offer_served :
    (config : Config) (signer : Signer) (now : ℕ) (r : HttpRequest) (s : Server) (pa : Preauth)
    → Dict.get (signer.base r.path) s.preauth_store ≡ some pa
    → now ≤ pa.expires_at
    → handle_offer_by_code config signer now r s
      ≡ offer (record {
        credential_issuer = config.issuer_base_url;
        credential_configuration_ids = "StudentCredential_JWT_v1" ∷ [];
        pre_authorized_code = signer.base r.path;
      })
unfolding handle_offer_by_code
offer_served config signer now r s pa stored in_time =
    rw (live_preauth_stored now (signer.base r.path) s pa stored in_time, handle_offer_by_code) refl

module _ {J : Type 0} (outside : Outside J) where
  -- An offer is redeemed if its three requests are answered.
  redeem_offer_ok :
      (uri : String) (doc : OfferDocument) (t : TokenResult) (res : CredentialResult)
      → json_answer outside.status_text outside.decode_offer uri (outside.get uri) ≡ ok doc
      → (pre_code doc == "") ≡ false
      → json_answer outside.status_text outside.decode_token
          (doc.credential_issuer ⧺ "/oidc4vci/token")
          (outside.post
            (doc.credential_issuer ⧺ "/oidc4vci/token")
            (token_request_for (pre_code doc)))
        ≡ ok t
      → json_answer outside.status_text outside.decode_credential
          (doc.credential_issuer ⧺ "/oidc4vci/credential")
          (outside.post_authorized (doc.credential_issuer ⧺ "/oidc4vci/credential") t.access_token)
        ≡ ok res
      → redeem_offer outside uri ≡ ok res
  unfolding redeem_offer refused
  redeem_offer_ok uri doc t res offered filled exchanged got =
      rw (offered, redeem_offer, refused) (rw filled (rw exchanged (rw got refl)))

  import_stores :
      (now : ℕ) (link uri : String) (m : VcStore) (res : CredentialResult)
      → (link == "") ≡ false
      → import_uri outside link ≡ some (ok uri)
      → redeem_offer outside uri ≡ ok res
      → handle_wallet_import_offer outside now (ok link) m
        ≡ some (store_offered outside now m (ok res))
  unfolding handle_wallet_import_offer
  import_stores now link uri m res filled found got =
      rw (filled, found, handle_wallet_import_offer) (rw got refl)

  -- Let an issuer hold a code that expires neither before the wallet fetches its offer nor before it
  -- asks for a token, and let no call between the token and the credential request draw the token
  -- again, the credential request come at most 300 seconds after the token request, and the date
  -- and the signature succeed. If the wallet decodes from its three requests what the issuer's
  -- handlers answer, then `HandleWalletImportOffer` stores the credential that is signed over the
  -- claims of the user to whom the code was offered, with its hash as its id, and answers so.
  pub offered_credential_is_stored :
      (config : Config) (signer : Signer) (s : Server) (pa : Preauth) (fetched : ℕ)
      (r : HttpRequest)
      → Dict.get (signer.base r.path) s.preauth_store ≡ some pa
      → fetched ≤ pa.expires_at
      → (signer.base r.path == "") ≡ false
      → (redeemed_at : ℕ) (drawn c_nonce : String) → redeemed_at ≤ pa.expires_at
      → let (s2, a2) =
          handle_vci_token redeemed_at drawn c_nonce
            (some (token_request_for (signer.base r.path)))
            s in
        (between : List (ℕ × Call))
        → EachCall (DrawsOtherToken ("atk_" ⧺ drawn)) between
        → (now : ℕ) (q : HttpRequest) (jws : String) (birth : ℤ)
        → signer.has_prefix (get_text "Authorization" q.headers) "Bearer " ≡ true
        → signer.trim_space (signer.trim_prefix (get_text "Authorization" q.headers) "Bearer ")
          ≡ "atk_" ⧺ drawn
        → now ≤ redeemed_at + 300
        → signer.parse_date "2004-05-10" ≡ some birth
        → signer.sign
            (record { alg = "EdDSA"; kid = config.issuer_key_id; typ = "vc+jwt" })
            (claims_for config signer now pa.user birth)
          ≡ ok jws
        → (link uri : String) → (link == "") ≡ false
        → import_uri outside link ≡ some (ok uri)
        → ((o : Offer)
            → handle_offer_by_code config signer fetched r s ≡ offer o
            → json_answer outside.status_text outside.decode_offer uri (outside.get uri)
              ≡ ok (document o))
        → ((t : TokenAnswer)
            → a2 ≡ token t
            → json_answer outside.status_text outside.decode_token
                (config.issuer_base_url ⧺ "/oidc4vci/token")
                (outside.post
                  (config.issuer_base_url ⧺ "/oidc4vci/token")
                  (token_request_for (signer.base r.path)))
              ≡ ok (token_result t))
        → ((format raw : String)
            → handle_vci_credential config signer now q (run config between s2)
              ≡ credential format raw
            → json_answer outside.status_text outside.decode_credential
                (config.issuer_base_url ⧺ "/oidc4vci/credential")
                (outside.post_authorized
                  (config.issuer_base_url ⧺ "/oidc4vci/credential")
                  ("atk_" ⧺ drawn))
              ≡ ok (record { format = format; credential = raw }))
        → (stored_at : ℕ) (m : VcStore)
        → let vc = credential_for outside stored_at "jwt_vc_json" jws in
          handle_wallet_import_offer outside stored_at (ok link) m
          ≡ some (
            save vc m,
            ok (record { vc_id = vc.id; issuer = vc.issuer; types = vc.types; stored = true }),
          )
  unfolding redeem store_offered pre_code Dict.get
  offered_credential_is_stored config signer s pa fetched r stored live filled redeemed_at drawn
        c_nonce in_time between others now q jws birth bearer trimmed later parsed good link uri
        given found offered exchanged got stored_at m =
      let code = signer.base r.path in
      let e2 =
        redeemed config signer s redeemed_at drawn c_nonce (token_request_for code) pa refl stored
          in_time in
      let s2 = (handle_vci_token redeemed_at drawn c_nonce (some (token_request_for code)) s).0 in
      let stored2 =
        run_keeps_token config ("atk_" ⧺ drawn) between s2 others
        ∙ ap (λ p. Dict.get ("atk_" ⧺ drawn) p.0.access_store) e2
        ∙ redeemed_token config signer s redeemed_at drawn c_nonce code pa in
      let answered =
        issued config signer (run config between s2) now q ("atk_" ⧺ drawn) jws _ birth bearer
          trimmed stored2 later parsed good in
      import_stores stored_at link uri m _ given found (
        redeem_offer_ok uri _ _ _
          (offered _ (offer_served config signer fetched r s pa stored live)) filled
          (exchanged _ (ap (λ p. p.1) e2)) (got _ _ answered))
