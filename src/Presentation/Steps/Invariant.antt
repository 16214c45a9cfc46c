-- ===== src/Presentation/Steps/Invariant.antt =====
-- The service of system/api/src/zkprequest is sound after every history.
use digital_identity_system.Prelude.{
  ℕ, String, ◌≡◌, refl, sym, subst, Option, none, some, Result-cases, inl, inr,
}
use digital_identity_system.Presentation.Types.{ProofSubmission, Service}
use digital_identity_system.Dict
use digital_identity_system.Prelude.{[]}
use digital_identity_system.Presentation.Create.{load, apply_options, new_service}
use digital_identity_system.Presentation.Notify.{waiting, get_verdict}
use digital_identity_system.Presentation.Notify.Waiters.{among}
use digital_identity_system.Presentation.Env.{Env}
use digital_identity_system.Presentation.Verify.{verify_submission, mock_verify}
use digital_identity_system.Presentation.Handler.{Links, verify_presentation}
use digital_identity_system.Presentation.Steps.{
  Step, creates, blocks, verifies, mocks, hears, gives_up, fires, History, done, next,
}
use digital_identity_system.Presentation.Steps.Settled.{
  verify_submission-Settled, mock_verify-Settled, Settled, quiet,
}
use digital_identity_system.Presentation.Steps.Sound.{
  IsSound, Settled-IsSound, time_out-IsSound, receive-IsSound, fire_timer-IsSound,
}
use digital_identity_system.Presentation.Steps.Creates.{
  create_presentation-IsSound, begin_blocking-IsSound,
}

module _ (env : Env) (links : Links) where
  verify_presentation_service :
      (now : ℕ) (sub : ProofSubmission) (s : Service)
      → (verify_presentation env links now (some sub) s).0 ≡ (verify_submission env now sub s).0
  unfolding verify_presentation
  verify_presentation_service now sub s = elim (Result-cases (verify_submission env now sub s).1) [
    | inl (req, e) ↦ rw (e, verify_presentation) refl
    | inr (x, e) ↦ rw (e, verify_presentation) refl
  ]

  -- A verification over HTTP changes what a verification changes.
  pub verify_presentation-Settled :
      (now : ℕ) (body : Option ProofSubmission) (s : Service)
      → Settled s (verify_presentation env links now body s).0
  unfolding verify_presentation
  verify_presentation-Settled now none s = quiet refl
  verify_presentation-Settled now (some sub) s =
      subst (Settled s) (sym (verify_presentation_service now sub s))
        (verify_submission-Settled env now s sub)

  pub Step-IsSound :
      (drawn : Option String) (s t : Service)
      → Step env links drawn s t
      → IsSound env s
      → IsSound env t
  Step-IsSound drawn s t (creates now draws body _ e) i =
      subst (IsSound env) (sym e) (create_presentation-IsSound env s i links now draws body)
  Step-IsSound drawn s t (blocks now draws body _ e) i =
      subst (IsSound env) (sym e) (begin_blocking-IsSound env s i now draws body)
  Step-IsSound drawn s t (verifies now body e) i = subst (IsSound env) (sym e) (
      Settled-IsSound env s i (verify_presentation env links now body s).0
        (verify_presentation-Settled now body s))
  Step-IsSound drawn s t (mocks now id e) i =
      subst (IsSound env) (sym e)
        (Settled-IsSound env s i (mock_verify env now id s).0 (mock_verify-Settled env now s id))
  Step-IsSound drawn s t (hears ch res h) i = receive-IsSound env s i ch t res h
  Step-IsSound drawn s t (gives_up id ch e) i =
      subst (IsSound env) (sym e) (time_out-IsSound env s i id ch)
  Step-IsSound drawn s t (fires now n e) i =
      subst (IsSound env) (sym e) (fire_timer-IsSound env s i now n)

  -- If the service is sound, then it is sound after every history of calls, ends of waits and
  -- timers: the three caches agree, every stored request stands under its own id with the hash of
  -- its own schema, for which a verifying key is cached, every registered listener has an empty
  -- channel of its own, and a timer is pending for every verdict.
  pub History-IsSound :
      (allowed : Option String → Type 0) (t s : Service)
      → History env links allowed t s
      → IsSound env s
      → IsSound env t
  History-IsSound allowed t s done i = i
  History-IsSound allowed t s (next drawn _ mid _ step rest) i =
      History-IsSound allowed t mid rest (Step-IsSound drawn s mid step i)

new_service-IsSound : (env : Env) → IsSound env (new_service [])
unfolding new_service apply_options load Dict.get Dict.has among waiting get_verdict
new_service-IsSound env = record {
  cached = record { same_pk = λ _. refl; same_schema = λ _. refl; hashed = λ h c e. absurd (cc e) };
  waitable = record { empty = λ id ch h. absurd (cc h); apart = λ a b ch h k. absurd (cc h) };
  own = λ id req h. absurd (cc h);
  keyed = λ id req h. absurd (cc h);
  hashed = λ id req h. absurd (cc h);
  timed = λ id v h. absurd (cc h);
}

-- A service that was made without options and an empty store is sound after every history of calls,
-- ends of waits and timers.
History-new_service-IsSound :
    (env : Env) (links : Links) (allowed : Option String → Type 0) (t : Service)
    → History env links allowed t (new_service [])
    → IsSound env t
History-new_service-IsSound env links allowed t history =
    History-IsSound env links allowed t (new_service []) history (new_service-IsSound env)
