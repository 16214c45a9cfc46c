-- ===== src/Presentation/Handler/Laws.antt =====
-- What the endpoints of system/api/src/zkprequest/handler.go tell a client.
use digital_identity_system.Prelude.{
  ℕ, String, ◌≡◌, refl, sym, ap, ◌∙◌, inr, ◌≢◌, none, some, [], ◌∷◌, eq_refl, ok,
}
use digital_identity_system.Dict
use digital_identity_system.Dict.{Dict}
use digital_identity_system.Presentation.Notify.{get_verdict}
use digital_identity_system.Presentation.Types.{
  Any, str, Verdict, ProofSubmission, PresentationRequest, Service,
}
use digital_identity_system.Presentation.Env.{Env}
use digital_identity_system.Presentation.Create.{load}
use digital_identity_system.Presentation.Verify.{sprint, verify_submission}
use digital_identity_system.Presentation.Verify.Accepts.{IsBound, verify_submission-ok_iff}
use digital_identity_system.Presentation.Verify.Laws.{
  store_of_ok, load-delete, verdict_for, verify_submission_verdict,
}
use digital_identity_system.Presentation.Handler.{
  Links, state, verdict, describe, text_of, status, result,
}

status_absent :
    (later : ℕ) (id : String) (t : Service)
    → load id t.store ≡ none
    → status later id t ≡ state "unknown_or_consumed"
unfolding status
status_absent later id t gone = rw (gone, status) refl

result_told :
    (later : ℕ) (id : String) (t : Service) {v : Verdict}
    → get_verdict id t ≡ some v
    → result later id t ≡ verdict v
unfolding result
result_told later id t told = rw (told, result) refl

module _ (env : Env) (now later : ℕ) (sub : ProofSubmission) (s : Service)
    (req : PresentationRequest) where
  -- Once a submission has been accepted for a request stored under its own id, the status of its request is "unknown_or_consumed" at
  -- any later time, and its result is the verdict "verified" at the time of the acceptance.
  pub accepted_is_reported :
      (verify_submission env now sub s).1 ≡ ok req
      → req.request_id ≡ sub.request_id
      → (status later sub.request_id (verify_submission env now sub s).0
          ≡ state "unknown_or_consumed")
        × (result later sub.request_id (verify_submission env now sub s).0
            ≡ verdict (verdict_for now (ok req)))
  accepted_is_reported h same =
      let a = (verify_submission-ok_iff env now sub s req).0 h in
      let after = (verify_submission env now sub s).0 in
      let told : get_verdict sub.request_id after ≡ some (verdict_for now (ok req)) =
        verify_submission_verdict env now sub s req sub.request_id a.named a.filled a.stored same
        ∙ rw (eq_refl sub.request_id, h) refl in
      (
        status_absent later sub.request_id after
            (rw (store_of_ok env now sub s req h) (load-delete sub.request_id s.store)),
        result_told later sub.request_id after told,
      )

-- A nonce that a request was issued with, as the check and as the descriptor print it.
nonce_lem :
    (env : Env) (links : Links) (s : Service) (req : PresentationRequest) (nonce : String)
    → Dict.get "nonce" req.public_inputs ≡ some (str nonce)
    → (sprint env (Dict.get "nonce" req.public_inputs) ≡ nonce)
      × ((describe env links s req).nonce ≡ nonce)
unfolding sprint text_of describe
nonce_lem env links s req nonce issued =
    (rw (issued, sprint) refl, rw (issued, text_of, sprint) refl)

-- The audience and the nonce of a descriptor, sent back.
abbrev pub echoed : String → String → Dict Any
echoed aud nonce = ("aud", str aud) ∷ ("nonce", str nonce) ∷ []

sprint-echoed :
    (env : Env) (aud nonce : String)
    → (sprint env (Dict.get "aud" (echoed aud nonce)) ≡ aud)
      × (sprint env (Dict.get "nonce" (echoed aud nonce)) ≡ nonce)
unfolding sprint Dict.get
sprint-echoed env aud nonce = (refl, refl)

audience-describe :
    (env : Env) (links : Links) (s : Service) (req : PresentationRequest)
    → (describe env links s req).audience ≡ s.audience
unfolding describe
audience-describe env links s req = refl

-- If a request was issued with a text as its nonce that is not empty, then a submission that sends
-- back the audience and the nonce of the request's descriptor is bound to the request.
descriptor_binds :
    (env : Env) (links : Links) (s : Service) (req : PresentationRequest) (sub : ProofSubmission)
    (nonce : String)
    → Dict.get "nonce" req.public_inputs ≡ some (str nonce)
    → nonce ≢ ""
    → sub.public_inputs
      ≡ echoed (describe env links s req).audience (describe env links s req).nonce
    → IsBound env s sub req
descriptor_binds env links s req sub nonce issued filled echo =
    let (wanted, told) = nonce_lem env links s req nonce issued in
    let (aud, sent) =
      sprint-echoed env (describe env links s req).audience (describe env links s req).nonce in
    inr (
      ap (λ inputs. sprint env (Dict.get "aud" inputs)) echo
          ∙ aud
          ∙ audience-describe env links s req,
      ap (λ inputs. sprint env (Dict.get "nonce" inputs)) echo ∙ sent ∙ told ∙ sym wanted,
      λ e. filled (sym wanted ∙ e),
    )
