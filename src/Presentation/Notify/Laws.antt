-- ===== src/Presentation/Notify/Laws.antt =====
-- What the notifications of system/api/src/zkprequest/service.go change, and what they leave.
use digital_identity_system.Prelude.{
  ℕ, String, ◌≡◌, Bool, some, ◌==◌, if◌then◌else◌, Bool-cases, inl, inr,
}
use digital_identity_system.Dict.{get-put}
use digital_identity_system.Presentation.Types.{PresentationRequest, Verdict, VerifyResult, Service}
use digital_identity_system.Presentation.Env.{Env}
use digital_identity_system.Presentation.Notify.{
  notify_waiters, set_verdict, get_verdict, post_webhook,
}

module _ (env : Env) (now : ℕ) (req : PresentationRequest) (ok : Bool) (reason : String)
    (s : Service) where
  pub store-post_webhook : (post_webhook env now req ok reason s).store ≡ s.store
  unfolding post_webhook
  store-post_webhook = elim (Bool-cases (req.callback_url == "")) [
    | inl e ↦ simp e
    | inr e ↦ simp e
  ]

  pub verdicts-post_webhook : (post_webhook env now req ok reason s).verdicts ≡ s.verdicts
  unfolding post_webhook
  verdicts-post_webhook = elim (Bool-cases (req.callback_url == "")) [
    | inl e ↦ simp e
    | inr e ↦ simp e
  ]

  pub waiters-post_webhook : (post_webhook env now req ok reason s).waiters ≡ s.waiters
  unfolding post_webhook
  waiters-post_webhook = elim (Bool-cases (req.callback_url == "")) [
    | inl e ↦ simp e
    | inr e ↦ simp e
  ]

  pub channels-post_webhook : (post_webhook env now req ok reason s).channels ≡ s.channels
  unfolding post_webhook
  channels-post_webhook = elim (Bool-cases (req.callback_url == "")) [
    | inl e ↦ simp e
    | inr e ↦ simp e
  ]

  pub caches-post_webhook :
      ((post_webhook env now req ok reason s).vk_cache ≡ s.vk_cache)
      × ((post_webhook env now req ok reason s).pk_cache ≡ s.pk_cache)
      × ((post_webhook env now req ok reason s).schema_cache ≡ s.schema_cache)
  unfolding post_webhook
  caches-post_webhook = elim (Bool-cases (req.callback_url == "")) [
    | inl e ↦ (simp e, simp e, simp e)
    | inr e ↦ (simp e, simp e, simp e)
  ]

-- The last steps of a verification, one after the other.
abbrev pub announce :
    Env → ℕ → PresentationRequest → String → Verdict → VerifyResult → Service → Service
announce env now req id v answer s =
    notify_waiters id answer
      (post_webhook env now req answer.ok answer.reason (set_verdict now id v s))

module _ (env : Env) (now : ℕ) (req : PresentationRequest) (id : String) (v : Verdict)
    (answer : VerifyResult) (s : Service) where
  pub store-announce : (announce env now req id v answer s).store ≡ s.store
  unfolding notify_waiters set_verdict
  store-announce = store-post_webhook env now req answer.ok answer.reason (set_verdict now id v s)

  pub verdict-announce :
      (other : String)
      → get_verdict other (announce env now req id v answer s)
        ≡ (if id == other then some v else get_verdict other s)
  unfolding notify_waiters set_verdict get_verdict
  verdict-announce other =
      rw (verdicts-post_webhook env now req answer.ok answer.reason (set_verdict now id v s))
        (get-put id v other s.verdicts)
