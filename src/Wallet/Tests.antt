-- ===== src/Wallet/Tests.antt =====
-- Runs of system/zk-wallet-go on the sample data.
use mathlib.Core.List.{Memᴰ}
use digital_identity_system.Prelude.{
  ℕ, String, ◌≡◌, ◌↔◌, refl, subst, false, true, none, some, List, [], ◌∷◌, arith, ok, Result, take,
}
use digital_identity_system.Prelude.Int.{pos}
use digital_identity_system.Dict
use digital_identity_system.Presentation.Verify.{sprint, check_echo}
use digital_identity_system.Presentation.Samples.{busy, issued_request, links}
use digital_identity_system.Presentation.Handler.{PresentationDescriptor, describe}
use digital_identity_system.Circuit.Samples.{host, field}
use digital_identity_system.Wallet.{Session, Server, new_server, current_session, get_text}
use digital_identity_system.Wallet.Login.{
  handle_login, handle_callback, handle_me, handle_logout, failure,
}
use digital_identity_system.Wallet.Issuance.{
  VciReply, token, offered, offer_uri, claims_for, handle_create_offer, handle_offer_by_code,
  handle_vci_token, handle_vci_credential,
}
use digital_identity_system.Wallet.Calls.{logs_out, offers, run}
use digital_identity_system.Wallet.Calls.Once.{code_redeemed_once}
use digital_identity_system.Wallet.Calls.Completes.{offer_leads_to_credential}
use digital_identity_system.Wallet.Calls.Logout.{logout_ends_session}
use digital_identity_system.Wallet.Store.{VcStore, new_store, get, list, Op, saves, deletes}
use digital_identity_system.Wallet.Store
use digital_identity_system.Wallet.Store.Refines.{replay, run_refines}
use digital_identity_system.Circuit.Values.{int, text, convert_to_variable}
use digital_identity_system.Wallet.Claims.{
  leaf, object, empty, missing, bind, public_inputs, assign_all, is_bound, claims_of, resolve,
  lookup, find,
}
use digital_identity_system.Wallet.Claims.Reference.{assign_all_reference}
use digital_identity_system.Wallet.Create.{
  Submission, submission_for, Refusal, ZkpCreateResponse, handle_zkp_create,
}
use digital_identity_system.Schema.{
  field_type_string, field_type_integer, secret_field_order, public_field_order, SchemaDefinition,
  parse_schema_with, prepare, prepare_fields, prepared, check_constraints,
}
use digital_identity_system.Circuit.Build.{new_dynamic_circuit, clone, fill_metadata, fill_index}
use digital_identity_system.Circuit.Assign.{
  assign_values, assign_loop, assign_one, variable_for, place, check_required,
}
use digital_identity_system.Presentation.Package.{serialize_borsh}
use digital_identity_system.Wallet.Url.{normalize_weird_url}
use digital_identity_system.Wallet.Http.{json_answer}
use digital_identity_system.Wallet.Proving.{prove_dynamic_from_schema}
use digital_identity_system.Wallet.Create.Submits.{Answers, submission_for-Answers}
use digital_identity_system.Wallet.Create.Posts.{IsAnswered, handle_zkp_create_answers}
use digital_identity_system.Wallet.Create.Echo.{received, submission_passes_echo}
use digital_identity_system.Wallet.Create.Descriptor.{normalized, fetch_descriptor_schema_and_pk}
use digital_identity_system.Wallet.Samples.{
  ada, config, provider, signer, request, token_request, logging_in, issuing, wallet_schema,
  wallet_env, prover, reader, web, transfer, verifier, credential, logged_in, with_offer,
}

abbrev IsAda : Session → Type 0
IsAda user = user.sub ≡ "ada"

abbrev offered_server : Server
offered_server = run config (take 3 issuing) new_server

redeemed :
    (handle_vci_token 30 "t1" "cn" (some token_request) offered_server).1
    ≡ token (record {
      access_token = "atk_t1";
      token_type = "bearer";
      expires_in = 300;
      c_nonce = "cn";
      c_nonce_expires_in = 300;
    })
unfolding handle_vci_token run new_server Dict.get Dict.put handle_create_offer current_session
    handle_callback handle_login
redeemed = refl

code_redeemed_once_example :
    ((message : String) × (handle_vci_token 40 "t2" "cn2" (some token_request) (
          run config logging_in
            (handle_vci_token 30 "t1" "cn" (some token_request) offered_server).0)
        ≡ (
          run config logging_in
              (handle_vci_token 30 "t1" "cn" (some token_request) offered_server).0,
          VciReply.failure 400 message,
        )))
    × (handle_offer_by_code config signer 40 (request "GET") (
          run config logging_in
            (handle_vci_token 30 "t1" "cn" (some token_request) offered_server).0)
        ≡ VciReply.failure 400 "offer expired or invalid")
code_redeemed_once_example =
    code_redeemed_once config 30 "t1" "cn" token_request offered_server _ redeemed logging_in
      (tt, (tt, tt)) 40 "t2" "cn2" token_request refl signer (request "GET") refl

session : current_session (request "POST") logged_in ≡ ok ada
unfolding run new_server Dict.get Dict.put current_session handle_callback handle_login
session = refl

-- The user logs out before the wallet asks for the token.
offer_leads_to_credential_example :
    ((handle_create_offer config signer 20 "c1" (request "POST") logged_in).1
      ≡ offered "https://issuer/oidc4vci/offer/c1"
          "openid-credential-offer://?credential_offer_uri=https://issuer/oidc4vci/offer/c1")
    × ((handle_vci_token 30 "t1" "cn"
          (some token_request)
          (run config ((25, logs_out provider (request "GET")) ∷ []) with_offer)).1
        ≡ token (record {
          access_token = "atk_t1";
          token_type = "bearer";
          expires_in = 300;
          c_nonce = "cn";
          c_nonce_expires_in = 300;
        }))
    × (handle_vci_credential config signer 35 (request "GET") (
          run config []
            (handle_vci_token 30 "t1" "cn"
              (some token_request)
              (run config ((25, logs_out provider (request "GET")) ∷ []) with_offer)).0)
        ≡ VciReply.credential "jwt_vc_json" "ada")
unfolding offer_uri claims_for get_text Dict.get
offer_leads_to_credential_example =
    offer_leads_to_credential config signer logged_in ada 20 "c1" (request "POST") refl session
      ((25, logs_out provider (request "GET")) ∷ []) ((tt, tt), tt) 30 "t1" "cn" token_request refl
      refl (omega arith) [] tt 35 (request "GET") "ada" (pos 1084147200) refl refl (omega arith)
      refl refl

logout_ends_session_example :
    (handle_me (request "GET") (
        run config
          ((40, offers signer "c2" (request "POST")) ∷ [])
          (handle_logout config provider (request "GET") logged_in).0)
      ≡ failure 401 "unauthorized")
    × (handle_create_offer config signer 50 "c3" (request "POST") (
          run config
            ((40, offers signer "c2" (request "POST")) ∷ [])
            (handle_logout config provider (request "GET") logged_in).0)
        ≡ (
          run config
              ((40, offers signer "c2" (request "POST")) ∷ [])
              (handle_logout config provider (request "GET") logged_in).0,
          VciReply.failure 401 "unauthorized",
        ))
unfolding Dict.get
logout_ends_session_example =
    logout_ends_session config provider (request "GET") logged_in "s1" refl refl
      ((40, offers signer "c2" (request "POST")) ∷ []) (tt, tt) (request "GET") refl signer 50 "c3"

abbrev store_calls : List Op
store_calls = saves credential ∷ deletes "h2" ∷ []

run_refines_example :
    (get "h1" (Store.run store_calls new_store) ≡ replay store_calls (λ _. none) "h1")
    × (Memᴰ credential (list (Store.run store_calls new_store))
        ↔ (replay store_calls (λ _. none) "h1" ≡ some credential))
run_refines_example = run_refines store_calls "h1" credential

assign_all_reference_example :
    Dict.get "birth_ts" (assign_all reader wallet_schema.fields ("a.b.c" ∷ []) [])
    ≡ some (leaf (int (pos 1084147200)))
unfolding is_bound claims_of resolve lookup find
assign_all_reference_example =
    assign_all_reference reader wallet_schema.fields ("a.b.c" ∷ []) "birth_ts"

abbrev created : Result Refusal (ZkpCreateResponse ℕ)
created =
    handle_zkp_create wallet_env prover host reader verifier web config (credential ∷ [])
      (request "POST") (ok "r1")

abbrev response : ZkpCreateResponse ℕ
response = record {
  request_id = "r1";
  schema_hash = "sha256:{}";
  schema_uri = "https://verifier/v1/schemas/sha256:{}";
  audience = "https://verifier";
  expires_at = 300;
  submit_url = "https://verifier/verify";
  zkp_borsh_base64 = "Bwk=";
  proof_length = 2;
  public_witness_ok = true;
  verifier_response = object empty;
}

created_ok : created ≡ ok response
unfolding handle_zkp_create fetch_descriptor_schema_and_pk normalize_weird_url describe
    parse_schema_with prepare prepare_fields Dict.has Dict.put check_constraints missing prepared
    bind sprint assign_all prove_dynamic_from_schema new_dynamic_circuit assign_values
    serialize_borsh Dict.get claims_of resolve lookup find public_inputs json_answer assign_loop
    assign_one clone fill_metadata variable_for convert_to_variable place fill_index
    secret_field_order public_field_order check_required
created_ok = refl

handle_zkp_create_answers_example :
    (named : String) × (◌≡◌ {A = Result String String} (ok "r1") (ok named))
    × (◌≡◌ {A = String} "POST" "POST")
    × IsAnswered wallet_env prover host reader verifier web config (credential ∷ []) named response
handle_zkp_create_answers_example =
    handle_zkp_create_answers wallet_env prover host reader verifier web config (credential ∷ [])
      (request "POST") (ok "r1") response created_ok

abbrev desc : PresentationDescriptor
desc = normalized web (describe wallet_env links busy (issued_request "r1"))

abbrev sent : Submission ℕ
sent = record {
  request_id = "r1";
  zkp_blob_b64 = "Bwk=";
  public_inputs = ("nonce", leaf (text "n1")) ∷ ("aud", leaf (text "https://verifier")) ∷ [];
  challenge = "";
}

built :
    submission_for wallet_env prover host reader verifier (credential ∷ []) desc "{}" "{}"
    ≡ ok (sent, 2)
unfolding submission_for normalized fetch_descriptor_schema_and_pk normalize_weird_url describe
    parse_schema_with prepare prepare_fields Dict.has Dict.put check_constraints missing prepared
    bind sprint assign_all prove_dynamic_from_schema new_dynamic_circuit assign_values
    serialize_borsh Dict.get claims_of resolve lookup find public_inputs json_answer assign_loop
    assign_one clone fill_metadata variable_for convert_to_variable place fill_index
    secret_field_order public_field_order check_required
built = refl

abbrev parsed_schema : SchemaDefinition
parsed_schema = record wallet_schema {
  field_index =
      ("nonce", field "nonce" field_type_string true)
      ∷ ("aud", field "aud" field_type_string true)
      ∷ ("birth_ts", field "birth_ts" field_type_integer false)
      ∷ [];
}

parsed : parse_schema_with wallet_env.unmarshal_schema "{}" ≡ ok parsed_schema
unfolding parse_schema_with prepare prepare_fields Dict.has Dict.put Dict.get check_constraints
    prepared
parsed = refl

sent-Answers :
    Answers wallet_env prover host reader verifier
      (credential ∷ [])
      desc
      "{}"
      "{}"
      parsed_schema
      sent
sent-Answers =
    let (schema, answers) =
      submission_for-Answers wallet_env prover host reader verifier (credential ∷ []) desc "{}" "{}"
        sent 2 built in
    let e : schema ≡ parsed_schema = cc (answers.parsed, parsed) in
    subst
      (λ x. Answers wallet_env prover host reader verifier (credential ∷ []) desc "{}" "{}" x sent)
      e answers

submission_passes_echo_example :
    check_echo wallet_env busy (received transfer sent) (issued_request "r1") ≡ ok tt
unfolding Dict.get Dict.has normalize_weird_url
submission_passes_echo_example =
    submission_passes_echo wallet_env prover host reader verifier (credential ∷ []) web links busy
      (issued_request "r1") "{}" "{}" "n1" parsed_schema sent transfer sent-Answers refl refl refl
      refl refl refl refl refl (λ t. refl)
