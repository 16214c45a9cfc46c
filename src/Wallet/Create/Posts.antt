-- ===== src/Wallet/Create/Posts.antt =====
-- When `HandleZkpCreate` of internal/app/handlers/zkp_prove.go succeeds.
use digital_identity_system.Prelude.{
  ℕ, ◌/◌, eqb, eqb_iff, String, ◌≡◌, refl, inl, inr, List, ◌==◌, Result, ok, err, ◌>>=◌, >>=-eq-ok,
  eq_iff, Bool-cases, Result-cases,
}
use digital_identity_system.Schema.{SchemaDefinition}
use digital_identity_system.Circuit.Values.{Host}
use digital_identity_system.Presentation.Env.{Env}
use digital_identity_system.Presentation.Handler.{PresentationDescriptor}
use digital_identity_system.Wallet.{Config, HttpRequest}
use digital_identity_system.Wallet.Store.{VerifiableCredential}
use digital_identity_system.Wallet.Claims.{Claim, Reader}
use digital_identity_system.Wallet.Http.{Answer, json_answer}
use digital_identity_system.Wallet.Proving.{Prover}
use digital_identity_system.Wallet.Create.{
  Submission, Verifier, refused, submission_for, ZkpCreateResponse, response_for, post_submission,
  create_for, handle_zkp_create,
}
use digital_identity_system.Wallet.Create.Descriptor.{Web, fetch_descriptor_schema_and_pk}
use digital_identity_system.Wallet.Create.Submits.{Answers, refused-eq-ok, submission_for-Answers}

module _ (env : Env) (prover : Prover env) (host : Host env.Float) (reader : Reader env.Float)
    (verifier : Verifier env.Float) (web : Web) where
  -- The submission was posted to the descriptor's address and answered with a status of the 200s.
  abbrev pub WasPosted :
      PresentationDescriptor → Submission env.Float → ℕ → ZkpCreateResponse env.Float → Type 0
  WasPosted desc sub size response =
      (code : ℕ) × (body : String) × (answer : Claim env.Float) × (verifier.post desc.submit_url sub
        ≡ ok (code, body))
      × (code / 100 ≡ 2)
      × (response ≡ response_for desc sub size answer)

  json_answer-ok :
      (url : String) (answer : Answer) {a : Claim env.Float}
      → json_answer web.status_text verifier.decode url answer ≡ ok a
      → (code : ℕ) × (body : String) × (answer ≡ ok (code, body)) × (code / 100 ≡ 2)
  unfolding json_answer
  json_answer-ok url (err e) h = absurd (cc h)
  json_answer-ok url (ok (code, body)) h = elim (Bool-cases (eqb (code / 100) 2)) [
    | inl good ↦ (code, body, refl, (eqb_iff (code / 100) 2).0 good)
    | inr bad ↦ absurd (cc (simp bad at h))
  ]

  post_submission-WasPosted :
      (desc : PresentationDescriptor) (sub : Submission env.Float) (size : ℕ)
      {response : ZkpCreateResponse env.Float}
      → post_submission env prover host reader verifier web desc (sub, size) ≡ ok response
      → WasPosted desc sub size response
  unfolding post_submission
  post_submission-WasPosted desc sub size h =
      let call =
        json_answer web.status_text verifier.decode desc.submit_url
          (verifier.post desc.submit_url sub) in
      let (answer, answered, built) =
        >>=-eq-ok (refused 400 "digital identity verify failed: " (λ e. e) call)
          (λ answer. ok (response_for desc sub size answer)) h in
      let (code, body, posted, good) =
        json_answer-ok desc.submit_url _
          (refused-eq-ok 400 "digital identity verify failed: " (λ e. e) call answered) in
      (code, body, answer, posted, good, cc built)

  -- The request was fetched, and answered by a submission that was posted.
  abbrev pub IsAnswered :
      Config → List VerifiableCredential → String → ZkpCreateResponse env.Float → Type 0
  IsAnswered config listed id response =
      (desc : PresentationDescriptor) × (schema_json : String) × (pk_bytes : String)
      × (schema : SchemaDefinition) × (sub : Submission env.Float) × (size : ℕ)
      × (fetch_descriptor_schema_and_pk web config id ≡ ok (desc, schema_json, pk_bytes))
      × Answers env prover host reader verifier listed desc schema_json pk_bytes schema sub
      × WasPosted desc sub size response

  create_for_answers :
      (config : Config) (listed : List VerifiableCredential) (id : String)
      {response : ZkpCreateResponse env.Float}
      → create_for env prover host reader verifier web config listed id ≡ ok response
      → IsAnswered config listed id response
  unfolding create_for
  create_for_answers config listed id h =
      let call = fetch_descriptor_schema_and_pk web config id in
      let ((desc, schema_json, pk_bytes), got, rest) =
        >>=-eq-ok (refused 400 "descriptor/schema/pk fetch failed: " (λ e. e) call)
          (λ fetched.
            submission_for env prover host reader verifier listed fetched.0 fetched.1 fetched.2
            >>= post_submission env prover host reader verifier web fetched.0)
          h in
      let ((sub, size), built, posted) =
        >>=-eq-ok (submission_for env prover host reader verifier listed desc schema_json pk_bytes)
          (post_submission env prover host reader verifier web desc) rest in
      let (schema, answers) =
        submission_for-Answers env prover host reader verifier listed desc schema_json pk_bytes sub
          size built in
      (
        desc,
        schema_json,
        pk_bytes,
        schema,
        sub,
        size,
        refused-eq-ok 400 "descriptor/schema/pk fetch failed: " (λ e. e) call got,
        answers,
        post_submission-WasPosted desc sub size posted,
      )

  -- If `HandleZkpCreate` succeeds, then the call was a POST with a request id, and the wallet has
  -- fetched the descriptor, schema and proving key of that request and has posted to the
  -- descriptor's address, with an answer of the 200s, a submission that carries the ids of the
  -- descriptor, a proof over values from the descriptor (`aud`, `nonce`) and from the first
  -- credential that gives one (every other field of the schema), and as public inputs exactly the
  -- values of the schema's public fields.
  pub handle_zkp_create_answers :
      (config : Config) (listed : List VerifiableCredential) (r : HttpRequest)
      (body : Result String String) (response : ZkpCreateResponse env.Float)
      → handle_zkp_create env prover host reader verifier web config listed r body ≡ ok response
      → (named : String) × (body ≡ ok named)
        × (r.method ≡ "POST")
        × IsAnswered config listed (web.trim_space named) response
  unfolding handle_zkp_create
  handle_zkp_create_answers config listed r body response h =
      elim (Bool-cases (r.method == "POST")) [
        | inr other ↦ absurd (cc (simp other at h))
        | inl post ↦ elim (Result-cases body) [
          | inr (e, bad) ↦ absurd (cc (rw (bad, handle_zkp_create, refused, post) at h))
          | inl (named, good) ↦ elim (Bool-cases (web.trim_space named == "")) [
            | inl empty ↦ absurd (cc (rw (good, handle_zkp_create, refused, post, empty) at h))
            | inr filled ↦ (
              named,
              good,
              (eq_iff r.method "POST").0 post,
              create_for_answers config listed (web.trim_space named)
                  (rw (good, handle_zkp_create, refused, post, filled) at h),
            )
          ]
        ]
      ]
