-- ===== src/Presentation/Verify/Replay.antt =====
-- What an accepted proof is tied to (system/api/src/zkprequest/service.go): the schema's key, and
-- not the request.
use digital_identity_system.Prelude.{
  ℕ, ◌≤◌, String, ◌≡◌, refl, inl, false, some, [], ◌==◌, ok, subst, sym,
}
use digital_identity_system.Presentation.Types.{ProofSubmission, PresentationRequest, Service, unix}
use digital_identity_system.Presentation.Env.{Env}
use digital_identity_system.Presentation.Create.{load}
use digital_identity_system.Presentation.Verify.{verify_submission}
use digital_identity_system.Presentation.Verify.Accepts.{IsProven, verify_submission-ok_iff}

-- The submission that carries the same blob to another request, without public inputs.
abbrev pub redirected : ProofSubmission → String → ProofSubmission
redirected sub id = record sub { request_id = id; public_inputs = [] }

-- If a submission is accepted for one request, then its blob, sent without public inputs, is
-- accepted for every other stored and unexpired request over the same schema: the nonce of a
-- request is not compared with the public witness of the proof.
pub proof_serves_other_request :
    (env : Env) (now : ℕ) (sub : ProofSubmission) (s : Service) (req other : PresentationRequest)
    → (verify_submission env now sub s).1 ≡ ok req
    → (other.request_id == "") ≡ false
    → load other.request_id s.store ≡ some other
    → unix now ≤ other.expires_at
    → other.schema_hash ≡ req.schema_hash
    → (verify_submission env now (redirected sub other.request_id) s).1 ≡ ok other
proof_serves_other_request env now sub s req other h named stored in_time same =
    let a = (verify_submission-ok_iff env now sub s req).0 h in
    (verify_submission-ok_iff env now (redirected sub other.request_id) s other).1 (record {
      named = named;
      filled = a.filled;
      stored = stored;
      in_time = in_time;
      bound = inl refl;
      proven = subst (λ hash. IsProven env s.vk_cache hash sub.zkp_blob_b64) (sym same) a.proven;
    })
