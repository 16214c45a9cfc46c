-- ===== src/Wallet/Import/Tests.antt =====
-- Tests of the handlers that bring credentials into the wallet.
use digital_identity_system.Prelude.{
  String, ◌≡◌, refl, sym, ap, ◌∙◌, true, false, none, some, [], ◌∷◌, arith, ok, err,
}
use digital_identity_system.Prelude.Int.{pos}
use digital_identity_system.Dict
use digital_identity_system.Wallet.{Server, Preauth, current_session, get_text, new_server}
use digital_identity_system.Wallet.Login.{handle_callback, handle_login}
use digital_identity_system.Wallet.Calls.Completes.{redeemed, offer_leads_to_credential}
use digital_identity_system.Wallet.Issuance.{
  handle_create_offer, handle_vci_token, handle_vci_credential, claims_for, Offer, VciReply, offer,
  TokenAnswer, token, handle_offer_by_code, redeem,
}
use digital_identity_system.Wallet.Calls.{logs_out, run}
use digital_identity_system.Wallet.Store.{new_store, save}
use digital_identity_system.Wallet.Http.{json_answer}
use digital_identity_system.Wallet.Url.{begins}
use digital_identity_system.Wallet.Import.{
  CredentialResult, import_uri, credential_for, verified, fields_of, handle_wallet_import_offer,
  handle_wallet_verify,
}
use digital_identity_system.Wallet.Import.Ingest.{
  IngestRequest, handle_wallet_ingest, normalize_offer_to_uri, resolve, wants_store,
}
use digital_identity_system.Wallet.Import.Shown.{Outcome, ingested_is_shown}
use digital_identity_system.Wallet.Import.Offered.{
  document, token_result, token_request_for, offer_served, offered_credential_is_stored,
}
use digital_identity_system.Wallet.Samples.{
  ada, config, provider, signer, request, outside, logged_in, with_offer, offered_c1, token_t1,
}

abbrev link : String
link = "openid-credential-offer://?credential_offer_uri=https://issuer/oidc4vci/offer/c1"

-- A deeplink that does not parse.
import_panics :
    handle_wallet_import_offer (record outside { offer_uri_of = λ _. err "parse" }) 60 (ok link) []
    ≡ none
unfolding handle_wallet_import_offer import_uri begins
import_panics = refl

ingest_refuses :
    normalize_offer_to_uri (record outside { scheme_of = λ _. ok "ftp" }) "ftp://issuer"
    ≡ err "invalid credential offer input"
unfolding normalize_offer_to_uri begins
ingest_refuses = refl

-- A credential with a wrong signature is read all the same.
verify_reads :
    handle_wallet_verify outside (ok "eve")
    ≡ ok (record { valid = false; payload = some "eve"; error = "signature" })
unfolding handle_wallet_verify
verify_reads = refl

abbrev c1 : Preauth
c1 = record { code = "c1"; user = ada; expires_at = 320 }

abbrev ingested : IngestRequest
ingested = record { credential = "eve"; offer = ""; store = none }

ingested_is_shown_example :
    let (after, answer) =
      handle_wallet_ingest outside 60 (request "POST") (ok ingested) new_store in
    Outcome outside 60
      (resolve outside ingested)
      (wants_store ingested.store)
      new_store
      (record (request "GET") { path = "h:eve" })
      after
      answer
ingested_is_shown_example =
    ingested_is_shown outside 60 (request "POST") ingested new_store
      (record (request "GET") { path = "h:eve" })

stored : Dict.get "c1" with_offer.preauth_store ≡ some c1
unfolding run new_server Dict.get Dict.put current_session handle_callback handle_login
    handle_create_offer
stored = refl

answered :
    (o : Offer)
    → handle_offer_by_code config signer 25 (request "GET") with_offer ≡ offer o
    → offered_c1 ≡ o
answered o e =
    cc (sym (offer_served config signer 25 (request "GET") with_offer c1 stored (omega arith)) ∙ e)

abbrev redeemed_c1 : Server × VciReply
redeemed_c1 = handle_vci_token 30 "t1" "cn" (some (token_request_for "c1")) with_offer

exchanged : (t : TokenAnswer) → redeemed_c1.1 ≡ token t → token_t1 ≡ t
unfolding redeem
exchanged t e =
    let done =
      redeemed config signer with_offer 30 "t1" "cn" (token_request_for "c1") c1 refl stored
        (omega arith) in
    cc (sym (ap (λ p. p.1) done) ∙ e)

user_of_session : current_session (request "POST") logged_in ≡ ok ada
unfolding run new_server Dict.get Dict.put current_session handle_callback handle_login
user_of_session = refl

issued_ada :
    handle_vci_credential config signer 35
      (request "GET")
      (run config ((32, logs_out provider (request "GET")) ∷ []) redeemed_c1.0)
    ≡ VciReply.credential "jwt_vc_json" "ada"
unfolding run claims_for get_text Dict.get
issued_ada =
    (offer_leads_to_credential config signer logged_in ada 20 "c1" (request "POST") refl
      user_of_session [] tt 30 "t1" "cn" (token_request_for "c1") refl refl (omega arith)
      ((32, logs_out provider (request "GET")) ∷ []) (tt, tt) 35 (request "GET") "ada"
      (pos 1084147200) refl refl (omega arith) refl refl).2

abbrev result : String → String → CredentialResult
result format raw = record { format = format; credential = raw }

got :
    (format raw : String)
    → handle_vci_credential config signer 35
        (request "GET")
        (run config ((32, logs_out provider (request "GET")) ∷ []) redeemed_c1.0)
      ≡ VciReply.credential format raw
    → result "jwt_vc_json" "ada" ≡ result format raw
got format raw e = cc (sym issued_ada ∙ e)

offered_credential_is_stored_example :
    handle_wallet_import_offer outside 60 (ok link) new_store
    ≡ some (
      save (credential_for outside 60 "jwt_vc_json" "ada") new_store,
      ok (record { vc_id = "h:ada"; issuer = "https://issuer"; types = []; stored = true }),
    )
unfolding claims_for get_text Dict.get credential_for verified fields_of import_uri begins
    json_answer
offered_credential_is_stored_example =
    offered_credential_is_stored outside config signer with_offer c1 25 (request "GET") stored
      (omega arith) refl 30 "t1" "cn" (omega arith) ((32, logs_out provider (request "GET")) ∷ [])
      (tt, tt) 35 (request "GET") "ada" (pos 1084147200) refl refl (omega arith) refl refl link
      "https://issuer/oidc4vci/offer/c1" refl refl (λ o e. ap (λ x. ok (document x)) (answered o e))
      (λ t e. ap (λ x. ok (token_result x)) (exchanged t e)) (λ f c e. ap ok (got f c e)) 60
      new_store
