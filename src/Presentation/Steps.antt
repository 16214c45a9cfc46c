-- ===== src/Presentation/Steps.antt =====
-- The calls that reach system/api/src/zkprequest one after the other: each step is one call of a
-- handler or of `MockVerify`, one end of a wait, or one timer. A handler is one step, so the steps
-- describe the histories in which no two calls overlap.
pub mod Settled
pub mod Sound
pub mod Creates
pub mod Invariant
pub mod Once
use digital_identity_system.Prelude.{ℕ, String, ◌≡◌, Option, some}
use digital_identity_system.Prelude.Int.{ℤ}
use digital_identity_system.Presentation.Types.{ProofSubmission, VerifyResult, Service}
use digital_identity_system.Presentation.Env.{Env}
use digital_identity_system.Presentation.Create.{Draws}
use digital_identity_system.Presentation.Notify.{receive, time_out, fire_timer}
use digital_identity_system.Presentation.Verify.{mock_verify}
use digital_identity_system.Presentation.Handler.{
  CreatePresentationIn, Links, create_presentation, verify_presentation, begin_blocking,
}

-- One step; `drawn` is the request id that a creating step drew.
pub data Step (env : Env) (links : Links) (drawn : Option String) (s t : Service) : Type 0 where
  creates :
      (now : ℕ) (draws : Draws) (body : Option CreatePresentationIn)
      → drawn ≡ some draws.request_id
      → t ≡ (create_presentation env links now draws body s).0
      → Step env links drawn s t
  blocks :
      (now : ℕ) (draws : Draws) (body : Option (String × ℤ))
      → drawn ≡ some draws.request_id
      → t ≡ (begin_blocking env now draws body s).0
      → Step env links drawn s t
  verifies :
      (now : ℕ) (body : Option ProofSubmission)
      → t ≡ (verify_presentation env links now body s).0
      → Step env links drawn s t
  mocks : (now : ℕ) (id : String) → t ≡ (mock_verify env now id s).0 → Step env links drawn s t
  hears : (ch : ℕ) (res : VerifyResult) → receive ch s ≡ some (t, res) → Step env links drawn s t
  gives_up : (id : String) (ch : ℕ) → t ≡ (time_out id ch s).0 → Step env links drawn s t
  fires : (now n : ℕ) → t ≡ fire_timer now n s → Step env links drawn s t

-- A history that ends in `t`, by the service that it starts in. Each step satisfies the condition
-- on the ids that are drawn.
pub data History (env : Env) (links : Links) (allowed : Option String → Type 0) (t : Service)
    : Service → Type 0 where
  done : History env links allowed t t
  next :
      (drawn : Option String) (s mid : Service)
      → allowed drawn
      → Step env links drawn s mid
      → History env links allowed t mid
      → History env links allowed t s
