-- ===== src/Presentation/Steps/Settled.antt =====
-- What `VerifySubmission` and `MockVerify` (system/api/src/zkprequest/service.go) can change.
use digital_identity_system.Prelude.{
  ℕ, ◌+◌, String, ◌≡◌, refl, ap, ◌∙◌, inl, inr, ◌⊎◌, Bool, none, List, ◌∷◌, ◌==◌, ltb, err,
  Bool-cases, Option-cases,
}
use digital_identity_system.Dict
use digital_identity_system.Dict.{Dict, get-remove}
use digital_identity_system.Presentation.Types.{
  ProofSubmission, PresentationRequest, Verdict, VerifyResult, Webhook, Service, unix,
  fifteen_minutes,
}
use digital_identity_system.Presentation.Env.{Env}
use digital_identity_system.Presentation.Create.{load, delete}
use digital_identity_system.Presentation.Notify.{
  waiting, send_all, notify_waiters, set_verdict, post_webhook,
}
use digital_identity_system.Presentation.Notify.Laws.{announce}
use digital_identity_system.Presentation.Verify.{
  record_fail, consume, verify_submission, mock_expired, mock_success, mock_verify,
}
use digital_identity_system.Presentation.Verify.Laws.{
  Ending, unnamed, unknown, late, refused, accepted, ending,
}

-- Every request of the first store is in the second.
abbrev pub IsWithin : Dict PresentationRequest → Dict PresentationRequest → Type 0
IsWithin m n = (key : String) → (load key m ≡ none) ⊎ (load key m ≡ load key n)

-- A service with a verdict set, its listeners answered and its webhook posted.
abbrev pub settled_service :
    ℕ
    → String
    → Verdict
    → VerifyResult
    → Dict PresentationRequest
    → List Webhook
    → Service
    → Service
settled_service now id v answer m hooks s = record s {
  store = m;
  waiters = Dict.remove id s.waiters;
  channels = send_all answer (waiting id s.waiters) s.channels;
  verdicts = Dict.put id v s.verdicts;
  timers = record { id = id; due = now + fifteen_minutes } ∷ s.timers;
  webhooks = hooks;
}

pub data Settled (s t : Service) : Type 0 where
  quiet : t ≡ s → Settled s t
  settled :
      (now : ℕ) (id : String) (v : Verdict) (answer : VerifyResult) (m : Dict PresentationRequest)
      (hooks : List Webhook)
      → IsWithin m s.store
      → t ≡ settled_service now id v answer m hooks s
      → Settled s t

delete-IsWithin : (id : String) (m : Dict PresentationRequest) → IsWithin (delete id m) m
unfolding load delete
delete-IsWithin id m key = elim (Bool-cases (id == key)) [
  | inl e ↦ inl (get-remove id key m ∙ simp e)
  | inr e ↦ inr (get-remove id key m ∙ simp e)
]

post_webhook_only :
    (env : Env) (now : ℕ) (req : PresentationRequest) (good : Bool) (reason : String) (s : Service)
    → post_webhook env now req good reason s
      ≡ record s { webhooks = (post_webhook env now req good reason s).webhooks }
unfolding post_webhook
post_webhook_only env now req good reason s = elim (Bool-cases (req.callback_url == "")) [
  | inl e ↦ simp e
  | inr e ↦ simp e
]

announce-Settled :
    (env : Env) (now : ℕ) (req : PresentationRequest) (id : String) (v : Verdict)
    (answer : VerifyResult) (m : Dict PresentationRequest) (s : Service)
    → IsWithin m s.store
    → Settled s (announce env now req id v answer (record s { store = m }))
unfolding notify_waiters set_verdict
announce-Settled env now req id v answer m s within =
    let before = set_verdict now id v (record s { store = m }) in
    settled now id v answer m (post_webhook env now req answer.ok answer.reason before).webhooks
      within
      (ap (notify_waiters id answer) (post_webhook_only env now req answer.ok answer.reason before))

module _ (env : Env) (now : ℕ) (s : Service) where
  pub verify_submission-Settled :
      (sub : ProofSubmission) → Settled s (verify_submission env now sub s).0
  unfolding record_fail consume
  verify_submission-Settled sub = go (ending env now sub s)
    where
      go :
          Ending env now sub s (verify_submission env now sub s)
          → Settled s (verify_submission env now sub s).0
      go (unnamed _ e) = quiet (ap (λ r. r.0) e)
      go (unknown _ e) = quiet (ap (λ r. r.0) e)
      go (late req _ _ e) = rw e (
          announce-Settled env now req req.request_id _ _ (delete sub.request_id s.store) s
            (delete-IsWithin sub.request_id s.store))
      go (refused req reason _ _ _ e) =
          rw e (announce-Settled env now req req.request_id _ _ s.store s (λ key. inr refl))
      go (accepted req _ _ _ e) = rw e (
          announce-Settled env now req req.request_id _ _ (delete sub.request_id s.store) s
            (delete-IsWithin sub.request_id s.store))

  mock_expired-Settled :
      (id : String) (req : PresentationRequest) → Settled s (mock_expired env now id req s).0
  unfolding mock_expired
  mock_expired-Settled id req =
      announce-Settled env now req id _ _ (delete id s.store) s (delete-IsWithin id s.store)

  mock_success-Settled :
      (id : String) (req : PresentationRequest) → Settled s (mock_success env now id req s).0
  unfolding mock_success
  mock_success-Settled id req =
      announce-Settled env now req id _ _ (delete id s.store) s (delete-IsWithin id s.store)

  mock_cases :
      (id : String)
      → (mock_verify env now id s ≡ (s, err "request not found or already used"))
        ⊎ ((req : PresentationRequest) × (mock_verify env now id s ≡ mock_expired env now id req s))
        ⊎ (req : PresentationRequest) × (mock_verify env now id s ≡ mock_success env now id req s)
  unfolding mock_verify
  mock_cases id = elim (Option-cases (load id s.store)) [
    | inl e ↦ inl (rw (e, mock_verify) refl)
    | inr (req, e) ↦ elim (Bool-cases (ltb req.expires_at (unix now))) [
      | inl t ↦ inr (inl (req, rw (e, t, mock_verify) refl))
      | inr t ↦ inr (inr (req, rw (e, t, mock_verify) refl))
    ]
  ]

  pub mock_verify-Settled : (id : String) → Settled s (mock_verify env now id s).0
  mock_verify-Settled id = elim (mock_cases id) [
    | inl e ↦ quiet (ap (λ r. r.0) e)
    | inr (inl (req, e)) ↦ rw e (mock_expired-Settled id req)
    | inr (inr (req, e)) ↦ rw e (mock_success-Settled id req)
  ]
