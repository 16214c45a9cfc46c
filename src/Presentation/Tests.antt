-- ===== src/Presentation/Tests.antt =====
-- Runs of system/api/src/zkprequest on the sample data.
use digital_identity_system.Prelude.{
  ℕ, String, ◌≡◌, ◌≢◌, refl, ◌⊎◌, true, false, none, some, ◌==◌, arith, ok, err, if◌then◌else◌,
  get_elem?,
}
use digital_identity_system.Dict
use digital_identity_system.Schema.{parse_schema_with, prepare, prepare_fields, check_constraints}
use digital_identity_system.Circuit.Build.{new_dynamic_circuit}
use digital_identity_system.Presentation.Package.{reconstruct_zkp_result}
use digital_identity_system.Presentation.Types.{str, ProofSubmission, PresentationRequest, Service}
use digital_identity_system.Presentation.Caches.{
  ad_hoc_disabled, canonical_json, make_keys, ensure_vk_for_schema,
}
use digital_identity_system.Presentation.Caches.Laws.{IsCached, ensure_vk_for_schema-IsCached}
use digital_identity_system.Presentation.Create.{load, new_request, create_request_from_schema}
use digital_identity_system.Presentation.Create.Laws.{
  IsIssued, create_request_from_schema_ok, create_request_from_schema_err,
}
use digital_identity_system.Presentation.Notify.{waiting, notify_waiters, register, get_verdict}
use digital_identity_system.Presentation.Notify.Waiters.{
  among, IsWaitable, notify_waiters_delivers, register-IsWaitable,
}
use digital_identity_system.Presentation.Verify.{check_submission, verify_submission}
use digital_identity_system.Presentation.Verify.Accepts.{Accepts, verify_submission-ok_iff}
use digital_identity_system.Presentation.Verify.Laws.{
  is_late, refused_keeps_store, verdict_for, verify_submission_verdict,
}
use digital_identity_system.Presentation.Verify.Replay.{redirected, proof_serves_other_request}
use digital_identity_system.Presentation.Handler.{state, verdict, status, result, describe}
use digital_identity_system.Presentation.Handler.Laws.{accepted_is_reported, echoed}
use digital_identity_system.Presentation.Samples.{
  test_env, idle, draws, issued_request, busy, links, submission,
}

abbrev r1 : PresentationRequest
r1 = issued_request "r1"

abbrev after : Service
after = (verify_submission test_env 0 submission busy).0

accepted : (verify_submission test_env 0 submission busy).1 ≡ ok r1
unfolding verify_submission load Dict.get check_submission reconstruct_zkp_result
accepted = refl

loaded : (id : String) → load id busy.store ≡ Dict.get id busy.store
unfolding load
loaded id = refl

loaded_r1 : load "r1" busy.store ≡ some r1
unfolding load Dict.get
loaded_r1 = refl

loaded_r2 : load "r2" busy.store ≡ some (issued_request "r2")
unfolding load Dict.get
loaded_r2 = refl

verify_submission-ok_iff_example : Accepts test_env 0 submission busy r1
verify_submission-ok_iff_example =
    (verify_submission-ok_iff test_env 0 submission busy r1).0 accepted

-- 301 seconds after the request was made
abbrev late : ℕ
late = 301000000000

expired : (verify_submission test_env late submission busy).1 ≡ err "request expired"
unfolding verify_submission
expired = rw loaded_r1 refl

refused_keeps_store_example :
    ((is_late test_env late submission busy ≡ false)
      × ((verify_submission test_env late submission busy).0.store ≡ busy.store))
    ⊎ ((is_late test_env late submission busy ≡ true)
        × (◌≡◌ {A = String} "request expired" "request expired")
        × ((id : String)
            → load id (verify_submission test_env late submission busy).0.store
              ≡ (if "r1" == id then none else load id busy.store)))
refused_keeps_store_example =
    refused_keeps_store test_env late submission busy "request expired" expired

verify_submission_verdict_example : get_verdict "r1" after ≡ (
    if "r1" == "r1"
    then some (verdict_for 0 (verify_submission test_env 0 submission busy).1)
    else get_verdict "r1" busy)
verify_submission_verdict_example =
    verify_submission_verdict test_env 0 submission busy r1 "r1" refl refl loaded_r1 refl

proof_serves_other_request_example :
    (verify_submission test_env 0 (redirected submission "r2") busy).1 ≡ ok (issued_request "r2")
proof_serves_other_request_example =
    proof_serves_other_request test_env 0 submission busy r1 (issued_request "r2") accepted refl
      loaded_r2 (omega arith) refl

accepted_is_reported_example :
    (status 5 "r1" after ≡ state "unknown_or_consumed")
    × (result 5 "r1" after ≡ verdict (verdict_for 0 (ok r1)))
accepted_is_reported_example = accepted_is_reported test_env 0 5 submission busy r1 accepted refl

-- The submission that the descriptor of `r1` asks for.
abbrev told : ProofSubmission
told = record submission {
  public_inputs =
      echoed (describe test_env links busy r1).audience (describe test_env links busy r1).nonce;
}

issued_nonce : Dict.get "nonce" r1.public_inputs ≡ some (str "n1")
unfolding Dict.get
issued_nonce = refl

filled : ◌≢◌ {A = String} "n1" ""
filled e = cc

-- The first request of an idle service.
abbrev first : PresentationRequest
first = new_request test_env idle 0 draws "{}" "sha256:{}"

made : (create_request_from_schema test_env idle 0 draws "{}").1 ≡ ok first
unfolding create_request_from_schema canonical_json ensure_vk_for_schema Dict.has make_keys
    parse_schema_with prepare prepare_fields check_constraints new_dynamic_circuit
made = refl

create_request_from_schema_ok_example :
    IsIssued test_env idle 0 draws (create_request_from_schema test_env idle 0 draws "{}").0 first
create_request_from_schema_ok_example =
    create_request_from_schema_ok test_env idle 0 draws "{}" first made

abbrev closed : Service
closed = record idle { allow_ad_hoc_schema = false }

refused : (create_request_from_schema test_env closed 0 draws "{}").1 ≡ err ad_hoc_disabled
unfolding create_request_from_schema
refused = refl

create_request_from_schema_err_example :
    (create_request_from_schema test_env closed 0 draws "{}").0 ≡ closed
create_request_from_schema_err_example =
    create_request_from_schema_err test_env closed 0 draws "{}" ad_hoc_disabled refused

idle-IsCached : IsCached test_env idle
unfolding Dict.has Dict.get
idle-IsCached = record {
  same_pk = λ _. refl;
  same_schema = λ _. refl;
  hashed = λ h c e. absurd (cc e);
}

ensure_vk_for_schema-IsCached_example :
    IsCached test_env (ensure_vk_for_schema test_env idle 5 "{}").0
ensure_vk_for_schema-IsCached_example =
    ensure_vk_for_schema-IsCached test_env idle 5 "{}" idle-IsCached

idle-IsWaitable : IsWaitable idle
unfolding among waiting Dict.get
idle-IsWaitable = record { empty = λ id ch h. absurd (cc h); apart = λ a b ch h k. absurd (cc h) }

listening : among 0 (waiting "r1" (register "r1" idle).0.waiters) ≡ true
unfolding among waiting register Dict.get Dict.put
listening = refl

notify_waiters_delivers_example :
    get_elem?
      (notify_waiters "r1" (record { ok = true; reason = "" }) (register "r1" idle).0).channels
      0
    ≡ some (some (record { ok = true; reason = "" }))
notify_waiters_delivers_example =
    notify_waiters_delivers "r1" (record { ok = true; reason = "" }) (register "r1" idle).0
      (register-IsWaitable "r1" idle idle-IsWaitable) 0 listening
