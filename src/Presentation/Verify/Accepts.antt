-- ===== src/Presentation/Verify/Accepts.antt =====
-- When `VerifySubmission` (system/api/src/zkprequest/service.go) accepts a submission.
use digital_identity_system.Prelude.{
  ℕ, ◌≤◌, String, ◌≡◌, ◌≢◌, ◌↔◌, ◌⊎◌, inl, inr, refl, subst, true, false, not, ◌||◌, some, ◌==◌,
  ltb, ltb-false, arith, is_empty, ok, guard, or_err, >>=-eq-ok, or_err-eq-ok, guard-eq-ok,
  not-eq-true, Bool-cases, Option-cases, Result-cases, eq_iff,
}
use digital_identity_system.Dict
use digital_identity_system.Presentation.Types.{
  Bytes, ProofSubmission, PresentationRequest, Service, unix,
}
use digital_identity_system.Presentation.Env.{Env}
use digital_identity_system.Presentation.Package.{ZkpResult, reconstruct_zkp_result}
use digital_identity_system.Presentation.Create.{load}
use digital_identity_system.Presentation.Verify.{
  sprint, check_echo, cached, check_proof, check_submission, verify_loaded, verify_submission,
}

-- A negated test that holds is false.
module _ (env : Env) where
  -- The submission repeats the audience of the server and the nonce of the request, or has no
  -- public inputs at all.
  abbrev pub IsBound : Service → ProofSubmission → PresentationRequest → Type 0
  IsBound s sub req =
      (is_empty sub.public_inputs ≡ true)
      ⊎ (sprint env (Dict.get "aud" sub.public_inputs) ≡ s.audience)
        × (sprint env (Dict.get "nonce" sub.public_inputs)
            ≡ sprint env (Dict.get "nonce" req.public_inputs))
        × (sprint env (Dict.get "nonce" req.public_inputs) ≢ "")

  -- The blob is a proof that verifies under the key that the server holds for the schema.
  pub record IsProven (vk_cache : Dict.Dict Bytes) (hash blob : String) : Type 0 where
    pub raw : Bytes
    pub pkg : ZkpResult env.Proof env.Witness
    pub vk : env.VerifyingKey
    pub decoded : env.base64_decode blob ≡ some raw
    pub unpacked : reconstruct_zkp_result env.codec raw ≡ some pkg
    pub held : is_empty (cached hash vk_cache) ≡ false
    pub loaded : env.read_vk (cached hash vk_cache) ≡ some vk
    pub verified : env.verify pkg.proof vk pkg.public_witness ≡ true

  pub record Accepts (now : ℕ) (sub : ProofSubmission) (s : Service) (req : PresentationRequest)
      : Type 0 where
    pub named : (sub.request_id == "") ≡ false
    pub filled : (sub.zkp_blob_b64 == "") ≡ false
    pub stored : load sub.request_id s.store ≡ some req
    pub in_time : unix now ≤ req.expires_at
    pub bound : IsBound s sub req
    pub proven : IsProven s.vk_cache req.schema_hash sub.zkp_blob_b64

  check_echo_iff :
      (s : Service) (sub : ProofSubmission) (req : PresentationRequest)
      → (check_echo env s sub req ≡ ok tt) ↔ IsBound s sub req
  unfolding check_echo
  check_echo_iff s sub req =
      let got_aud = sprint env (Dict.get "aud" sub.public_inputs) in
      let want = sprint env (Dict.get "nonce" req.public_inputs) in
      let got = sprint env (Dict.get "nonce" sub.public_inputs) in
      ground (arith, eq_iff s.audience got_aud, eq_iff want "", eq_iff got "", eq_iff want got)

  module _ (vk_cache : Dict.Dict Bytes) (hash blob : String) where
    check_proof_sound : check_proof env vk_cache hash blob ≡ ok tt → IsProven vk_cache hash blob
    unfolding check_proof
    check_proof_sound h =
        let (raw, e1, h1) = >>=-eq-ok (or_err (env.base64_decode blob) _) _ h in
        let (pkg, e2, h2) = >>=-eq-ok (or_err (reconstruct_zkp_result env.codec raw) _) _ h1 in
        let (_, e3, h3) = >>=-eq-ok (guard (not (is_empty (cached hash vk_cache))) _) _ h2 in
        let (vk, e4, h4) = >>=-eq-ok (or_err (env.read_vk (cached hash vk_cache)) _) _ h3 in
        record {
          raw = raw;
          pkg = pkg;
          vk = vk;
          decoded = or_err-eq-ok (env.base64_decode blob) _ e1;
          unpacked = or_err-eq-ok (reconstruct_zkp_result env.codec raw) _ e2;
          held = not-eq-true _ (guard-eq-ok _ _ e3);
          loaded = or_err-eq-ok (env.read_vk (cached hash vk_cache)) _ e4;
          verified = guard-eq-ok _ _ h4;
        }

    check_proof_complete : IsProven vk_cache hash blob → check_proof env vk_cache hash blob ≡ ok tt
    unfolding check_proof
    check_proof_complete p = simp (p.decoded, p.unpacked, p.held, p.loaded, p.verified)

  check_submission_iff :
      (s : Service) (sub : ProofSubmission) (req : PresentationRequest)
      → (check_submission env s sub req ≡ ok tt)
        ↔ (IsBound s sub req × IsProven s.vk_cache req.schema_hash sub.zkp_blob_b64)
  unfolding check_submission
  check_submission_iff s sub req = (
    λ h.
        let (_, e, h') = >>=-eq-ok (check_echo env s sub req) _ h in
        (
          (check_echo_iff s sub req).0 e,
          check_proof_sound s.vk_cache req.schema_hash sub.zkp_blob_b64 h',
        ),
    λ (bound, proven).
        rw
          (
            (check_echo_iff s sub req).1 bound,
            check_proof_complete s.vk_cache req.schema_hash sub.zkp_blob_b64 proven,
          )
          refl,
  )

  module _ (now : ℕ) (sub : ProofSubmission) (s : Service) (req : PresentationRequest) where
    verify_loaded_sound :
        (found : PresentationRequest)
        → (verify_loaded env now sub found s).1 ≡ ok req
        → (found ≡ req) × (unix now ≤ found.expires_at) × (check_submission env s sub found ≡ ok tt)
    unfolding verify_loaded
    verify_loaded_sound found h = elim (Bool-cases (ltb found.expires_at (unix now))) [
      | inl late ↦ absurd (cc (simp late at h))
      | inr in_time ↦ elim (Result-cases (check_submission env s sub found)) [
        | inl (tt, e) ↦
            (cc (simp (in_time, e) at h), ltb-false found.expires_at (unix now) in_time, e)
        | inr (x, e) ↦ absurd (cc (simp (in_time, e) at h))
      ]
    ]

    verify_loaded_complete :
        unix now ≤ req.expires_at
        → check_submission env s sub req ≡ ok tt
        → (verify_loaded env now sub req s).1 ≡ ok req
    unfolding verify_loaded
    verify_loaded_complete in_time e = simp (not_late, e)
      where
        not_late : ltb req.expires_at (unix now) ≡ false
        not_late = ground arith

    verify_submission_sound : (verify_submission env now sub s).1 ≡ ok req → Accepts now sub s req
    unfolding verify_submission
    verify_submission_sound h = elim (Bool-cases (sub.request_id == "" || sub.zkp_blob_b64 == "")) [
      | inl missing ↦ absurd (cc (rw missing at h))
      | inr present ↦ elim (Option-cases (load sub.request_id s.store)) [
        | inl unknown ↦ absurd (cc (simp (present, unknown) at h))
        | inr (found, stored) ↦
            let (same, in_time, checked) =
              verify_loaded_sound found (simp (present, stored) at h) in
            let (bound, proven) = (check_submission_iff s sub found).0 checked in
            subst (Accepts now sub s) same (record {
              named = ground arith;
              filled = ground arith;
              stored = stored;
              in_time = in_time;
              bound = bound;
              proven = proven;
            })
      ]
    ]

    verify_submission_complete :
        Accepts now sub s req → (verify_submission env now sub s).1 ≡ ok req
    unfolding verify_submission
    verify_submission_complete a =
        simp (a.named, a.filled, a.stored)
          (verify_loaded_complete a.in_time
            ((check_submission_iff s sub req).1 (a.bound, a.proven)))

    -- A submission is accepted for a request exactly if it names the request and carries a blob,
    -- the request is stored and has not expired, the submission has no public inputs or repeats
    -- the server's audience and the request's non-empty nonce, and the blob is a proof package
    -- that verifies under the key that the server holds for the request's schema.
    pub verify_submission-ok_iff :
        ((verify_submission env now sub s).1 ≡ ok req) ↔ Accepts now sub s req
    verify_submission-ok_iff = (verify_submission_sound, verify_submission_complete)
