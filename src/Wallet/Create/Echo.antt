-- ===== src/Wallet/Create/Echo.antt =====
-- The wallet's submission at the verifier of system/api.
use digital_identity_system.Prelude.{
  String, ◌≡◌, ap, ◌∙◌, inl, inr, true, false, none, some, List, [], ◌∷◌, ◌==◌, is_empty, map, ok,
  eq_refl, Bool-cases,
}
use digital_identity_system.Dict
use digital_identity_system.Dict.{Dict}
use digital_identity_system.Schema.{SchemaDefinition}
use digital_identity_system.Circuit.Values.{Host, text}
use digital_identity_system.Presentation.Types.{
  Any, str, ProofSubmission, PresentationRequest, Service,
}
use digital_identity_system.Presentation.Env.{Env}
use digital_identity_system.Presentation.Handler.{Links, describe, text_of}
use digital_identity_system.Presentation.Verify.{sprint, check_echo}
use digital_identity_system.Wallet.Store.{VerifiableCredential}
use digital_identity_system.Wallet.Url.{normalize_weird_url}
use digital_identity_system.Wallet.Claims.{Claim, leaf, Reader}
use digital_identity_system.Wallet.Claims.Reference.{names_public}
use digital_identity_system.Wallet.Proving.{Prover}
use digital_identity_system.Wallet.Create.{Submission, Verifier}
use digital_identity_system.Wallet.Create.Descriptor.{Web, normalized}
use digital_identity_system.Wallet.Create.Submits.{Answers}

-- The body as the verifier decodes it; `transfer` is what JSON makes of one value.
abbrev pub received : {F : Type 0} → (Claim F → Any) → Submission F → ProofSubmission
received transfer sub = record {
  request_id = sub.request_id;
  zkp_blob_b64 = sub.zkp_blob_b64;
  public_inputs = map (λ p. (p.0, transfer p.1)) sub.public_inputs;
  challenge = sub.challenge;
}

get-map :
    {F : Type 0} (transfer : Claim F → Any) (name : String) (m : Dict (Claim F)) {v : Claim F}
    → Dict.get name m ≡ some v
    → Dict.get name (map (λ p. (p.0, transfer p.1)) m) ≡ some (transfer v)
unfolding Dict.get
get-map transfer name [] h = absurd (cc h)
get-map transfer name ((k, w) ∷ m) h = elim (Bool-cases (k == name)) [
  | inl e ↦ simp e (ap (λ o. elim o [ none ↦ none | some x ↦ some (transfer x) ]) (simp e at h))
  | inr e ↦ simp e (get-map transfer name m (simp e at h))
]

described_audience :
    (env : Env) (links : Links) (web : Web) (s : Service) (req : PresentationRequest)
    → normalize_weird_url web.trim_space s.audience ≡ s.audience
    → (normalized web (describe env links s req)).audience ≡ s.audience
unfolding normalized describe
described_audience env links web s req kept = kept

described_nonce :
    (env : Env) (links : Links) (web : Web) (s : Service) (req : PresentationRequest)
    {nonce : String}
    → Dict.get "nonce" req.public_inputs ≡ some (str nonce)
    → (normalized web (describe env links s req)).nonce ≡ nonce
unfolding normalized describe text_of sprint
described_nonce env links web s req asked = ap (text_of env links) asked

check_echo_passes :
    (env : Env) (s : Service) (sub : ProofSubmission) (req : PresentationRequest) (nonce : String)
    → Dict.get "aud" sub.public_inputs ≡ some (str s.audience)
    → Dict.get "nonce" sub.public_inputs ≡ some (str nonce)
    → Dict.get "nonce" req.public_inputs ≡ some (str nonce)
    → (nonce == "") ≡ false
    → check_echo env s sub req ≡ ok tt
unfolding check_echo sprint
check_echo_passes env s sub req nonce aud echoed asked filled =
    let got_aud : sprint env (Dict.get "aud" sub.public_inputs) ≡ s.audience =
      ap (sprint env) aud in
    let got : sprint env (Dict.get "nonce" sub.public_inputs) ≡ nonce = ap (sprint env) echoed in
    let want : sprint env (Dict.get "nonce" req.public_inputs) ≡ nonce = ap (sprint env) asked in
    elim (Bool-cases (is_empty sub.public_inputs)) [
      | inl e ↦ simp e
      | inr e ↦ simp (e, got_aud, got, want, filled, eq_refl)
    ]

-- Let a schema have public fields `aud` and `nonce`, and let the wallet answer the verifier's
-- descriptor of a stored request, with its addresses repaired, by a submission under that schema.
-- If the repair leaves the verifier's audience as it is, neither it nor the request's nonce is
-- empty, and JSON carries texts unchanged, then the submission passes the verifier's comparison of
-- the echoed audience and nonce.
pub submission_passes_echo :
    (env : Env) (prover : Prover env) (host : Host env.Float) (reader : Reader env.Float)
    (verifier : Verifier env.Float) (listed : List VerifiableCredential) (web : Web) (links : Links)
    (s : Service) (req : PresentationRequest) (schema_json pk_bytes nonce : String)
    (schema : SchemaDefinition) (sub : Submission env.Float) (transfer : Claim env.Float → Any)
    → Answers env prover host reader verifier listed
        (normalized web (describe env links s req))
        schema_json
        pk_bytes
        schema
        sub
    → names_public "aud" schema.fields ≡ true
    → names_public "nonce" schema.fields ≡ true
    → Dict.has "aud" schema.field_index ≡ true
    → Dict.has "nonce" schema.field_index ≡ true
    → normalize_weird_url web.trim_space s.audience ≡ s.audience
    → (s.audience == "") ≡ false
    → Dict.get "nonce" req.public_inputs ≡ some (str nonce)
    → (nonce == "") ≡ false
    → ((t : String) → transfer (leaf (text t)) ≡ str t)
    → check_echo env s (received transfer sub) req ≡ ok tt
submission_passes_echo env prover host reader verifier listed web links s req schema_json pk_bytes
      nonce schema sub transfer answers aud_public nonce_public aud_known nonce_known kept named
      asked filled carried =
    let desc = normalized web (describe env links s req) in
    let aud : Dict.get "aud" sub.public_inputs ≡ some (leaf (text s.audience)) =
      answers.disclosed "aud"
      ∙ simp (aud_public, aud_known, described_audience env links web s req kept, named) in
    let echoed : Dict.get "nonce" sub.public_inputs ≡ some (leaf (text nonce)) =
      answers.disclosed "nonce"
      ∙ simp (nonce_public, nonce_known, described_nonce env links web s req asked, filled) in
    check_echo_passes env s (received transfer sub) req nonce
      (get-map transfer "aud" sub.public_inputs aud ∙ ap some (carried s.audience))
      (get-map transfer "nonce" sub.public_inputs echoed ∙ ap some (carried nonce)) asked filled
