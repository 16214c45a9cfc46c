-- ===== src/Presentation/Verify.antt =====
-- `VerifySubmission` and `MockVerify` of system/api/src/zkprequest/service.go. One call reads the
-- clock at one instant, `now`.
pub mod Accepts
pub mod Laws
pub mod Replay
pub mod Packed
use Prim.Native.String
use digital_identity_system.Prelude.{
  ℕ, String, Bool, true, false, not, ◌||◌, Option, none, some, List, [], ◌∷◌, ◌==◌, ltb,
  if◌then◌else◌, is_empty, Result, ok, err, ◌>>=◌, ◌>>◌, guard, or_err,
}
use digital_identity_system.Dict
use digital_identity_system.Dict.{Dict}
use digital_identity_system.Presentation.Types.{
  Any, nil_any, str, int, other, Bytes, ProofSubmission, PresentationRequest, Verdict, VerifyResult,
  Service, unix,
}
use digital_identity_system.Presentation.Env.{Env}
use digital_identity_system.Presentation.Package.{reconstruct_zkp_result}
use digital_identity_system.Presentation.Create.{load, delete}
use digital_identity_system.Presentation.Notify.{set_verdict, post_webhook, notify_waiters}

infixr 65 ◌⧺◌
abbrev pub ◌⧺◌ : String → String → String
s ⧺ t = String.◌++◌ s t

-- `s.vkCache[hash]`, where a missing key gives the nil slice.
unfoldable pub cached : String → Dict Bytes → Bytes
cached hash m = elim (Dict.get hash m) [ none ↦ [] | some b ↦ b ]

module _ (env : Env) where
  -- `fmt.Sprint` of a map's value, where a missing key gives nil.
  unfoldable pub sprint : Option Any → String
  sprint none = "<nil>"
  sprint (some nil_any) = "<nil>"
  sprint (some (str s)) = s
  sprint (some (int n)) = env.print_int n
  sprint (some (other s)) = s

  -- The echo check of the audience and the nonce.
  unfoldable pub check_echo :
      Service → ProofSubmission → PresentationRequest → Result String (Unit {0})
  unfolding sprint
  check_echo s sub req =
      let got_aud = sprint (Dict.get "aud" sub.public_inputs) in
      let want_nonce = sprint (Dict.get "nonce" req.public_inputs) in
      let got_nonce = sprint (Dict.get "nonce" sub.public_inputs) in
      if is_empty sub.public_inputs
      then ok tt
      else if not (s.audience == got_aud)
      then err ("aud mismatch: want=" ⧺ s.audience ⧺ " got=" ⧺ got_aud)
      else if want_nonce == "" || got_nonce == "" || not (want_nonce == got_nonce)
      then err ("nonce mismatch: want=" ⧺ want_nonce ⧺ " got=" ⧺ got_nonce)
      else ok tt

  -- The proof, against the key that the server holds for the schema.
  unfoldable pub check_proof : Dict Bytes → String → String → Result String (Unit {0})
  unfolding cached
  check_proof vk_cache hash blob = do
    raw ← or_err (env.base64_decode blob) "invalid zkp_blob_b64"
    pkg ← or_err (reconstruct_zkp_result env.codec raw) "invalid proof package"
    guard (not (is_empty (cached hash vk_cache))) "server VK not found"
    vk ← or_err (env.read_vk (cached hash vk_cache)) "cannot load server VK"
    guard (env.verify pkg.proof vk pkg.public_witness) "verify failed"

  unfoldable pub check_submission :
      Service → ProofSubmission → PresentationRequest → Result String (Unit {0})
  unfolding check_echo check_proof
  check_submission s sub req = do
    check_echo s sub req
    check_proof s.vk_cache req.schema_hash sub.zkp_blob_b64

  -- `recordFail`, for a request that was found.
  unfoldable pub record_fail :
      ℕ → PresentationRequest → String → Service → Service × Result String PresentationRequest
  record_fail now req reason s =
      let failed : Verdict = record {
        ok = false;
        reason = reason;
        state = "failed";
        verified_at = none;
      } in
      let answer : VerifyResult = record { ok = false; reason = reason } in
      (
        notify_waiters req.request_id answer
            (post_webhook env now req false reason (set_verdict now req.request_id failed s)),
        err reason,
      )

  -- The part after a successful check, under the id by which the request was found.
  unfoldable pub consume :
      ℕ → String → PresentationRequest → Service → Service × Result String PresentationRequest
  consume now id req s =
      let verified : Verdict = record {
        ok = true;
        reason = "";
        state = "verified";
        verified_at = some now;
      } in
      let answer : VerifyResult = record { ok = true; reason = "" } in
      (
        notify_waiters req.request_id answer (
            post_webhook env now req true ""
              (set_verdict now req.request_id verified (record s { store = delete id s.store }))),
        ok req,
      )

  unfoldable pub verify_loaded :
      ℕ
      → ProofSubmission
      → PresentationRequest
      → Service
      → Service × Result String PresentationRequest
  unfolding record_fail consume
  verify_loaded now sub req s =
      if ltb req.expires_at (unix now)
      then record_fail now req "request expired"
          (record s { store = delete sub.request_id s.store })
      else elim (check_submission s sub req) [
        | err reason ↦ record_fail now req reason s
        | ok _ ↦ consume now sub.request_id req s
      ]

  unfoldable pub verify_submission :
      ℕ → ProofSubmission → Service → Service × Result String PresentationRequest
  unfolding verify_loaded
  verify_submission now sub s =
      if sub.request_id == "" || sub.zkp_blob_b64 == ""
      then (s, err "missing request_id or zkp_blob_b64")
      else elim (load sub.request_id s.store) [
        | none ↦ (s, err "request not found or already used")
        | some req ↦ verify_loaded now sub req s
      ]

  -- `MockVerify` uses the id that it was called with throughout.
  unfoldable pub mock_expired :
      ℕ → String → PresentationRequest → Service → Service × Result String PresentationRequest
  mock_expired now id req s =
      let expired : Verdict = record {
        ok = false;
        reason = "request expired";
        state = "expired";
        verified_at = none;
      } in
      let answer : VerifyResult = record { ok = false; reason = "request expired" } in
      (
        notify_waiters id answer (
            post_webhook env now req false "request expired"
              (set_verdict now id expired (record s { store = delete id s.store }))),
        err "request expired",
      )

  unfoldable pub mock_success :
      ℕ → String → PresentationRequest → Service → Service × Result String PresentationRequest
  mock_success now id req s =
      let verified : Verdict = record {
        ok = true;
        reason = "";
        state = "verified";
        verified_at = some now;
      } in
      let answer : VerifyResult = record { ok = true; reason = "" } in
      (
        notify_waiters id answer (
            post_webhook env now req true ""
              (set_verdict now id verified (record s { store = delete id s.store }))),
        ok req,
      )

  unfoldable pub mock_verify : ℕ → String → Service → Service × Result String PresentationRequest
  unfolding mock_expired mock_success
  mock_verify now id s = elim (load id s.store) [
    | none ↦ (s, err "request not found or already used")
    | some req ↦
        if ltb req.expires_at (unix now)
        then mock_expired now id req s
        else mock_success now id req s
  ]
