-- ===== src/Presentation/Verify/Laws.antt =====
-- What `VerifySubmission` (system/api/src/zkprequest/service.go) does to the service.
use digital_identity_system.Prelude.{
  ℕ, String, ◌≡◌, refl, ap, ◌∙◌, ◌⊎◌, inl, inr, Bool, true, false, not, ◌||◌, ◌&&◌, Option, none,
  some, ◌==◌, ltb, if◌then◌else◌, arith, eq_refl, Result, ok, err, Bool-cases, Option-cases,
  Result-cases,
}
use digital_identity_system.Dict
use digital_identity_system.Dict.{get-remove}
use digital_identity_system.Presentation.Types.{
  ProofSubmission, PresentationRequest, Verdict, Service, unix,
}
use digital_identity_system.Presentation.Env.{Env}
use digital_identity_system.Presentation.Create.{load, delete}
use digital_identity_system.Presentation.Notify.{get_verdict}
use digital_identity_system.Presentation.Notify.Laws.{store-announce, verdict-announce}
use digital_identity_system.Presentation.Verify.{
  check_submission, record_fail, consume, verify_loaded, verify_submission,
}
use digital_identity_system.Presentation.Verify.Accepts.{verify_submission-ok_iff}

-- How a call with a request that was found ends.
pub data Ending (env : Env) (now : ℕ) (sub : ProofSubmission) (s : Service)
    (r : Service × Result String PresentationRequest) : Type 0 where
  unnamed :
      (sub.request_id == "" || sub.zkp_blob_b64 == "") ≡ true
      → r ≡ (s, err "missing request_id or zkp_blob_b64")
      → Ending env now sub s r
  unknown :
      load sub.request_id s.store ≡ none
      → r ≡ (s, err "request not found or already used")
      → Ending env now sub s r
  late :
      (req : PresentationRequest)
      → load sub.request_id s.store ≡ some req
      → ltb req.expires_at (unix now) ≡ true
      → r
        ≡ record_fail env now req "request expired"
            (record s { store = delete sub.request_id s.store })
      → Ending env now sub s r
  refused :
      (req : PresentationRequest) (reason : String)
      → load sub.request_id s.store ≡ some req
      → ltb req.expires_at (unix now) ≡ false
      → check_submission env s sub req ≡ err reason
      → r ≡ record_fail env now req reason s
      → Ending env now sub s r
  accepted :
      (req : PresentationRequest)
      → load sub.request_id s.store ≡ some req
      → ltb req.expires_at (unix now) ≡ false
      → check_submission env s sub req ≡ ok tt
      → r ≡ consume env now sub.request_id req s
      → Ending env now sub s r

abbrev pub has_expired : ℕ → Option PresentationRequest → Bool
has_expired now none = false
has_expired now (some req) = ltb req.expires_at (unix now)

get-delete :
    (own id : String) (m : Dict.Dict PresentationRequest)
    → load id (delete own m) ≡ (if own == id then none else load id m)
unfolding load delete
get-delete own id m = get-remove own id m

module _ (env : Env) (now : ℕ) (sub : ProofSubmission) (s : Service) where
  pub ending : Ending env now sub s (verify_submission env now sub s)
  unfolding verify_submission verify_loaded
  ending = elim (Bool-cases (sub.request_id == "" || sub.zkp_blob_b64 == "")) [
    | inl missing ↦ unnamed missing (simp missing)
    | inr present ↦ elim (Option-cases (load sub.request_id s.store)) [
      | inl e ↦ unknown e (simp (present, e))
      | inr (req, e) ↦ elim (Bool-cases (ltb req.expires_at (unix now))) [
        | inl t ↦ late req e t (simp (present, e, t))
        | inr t ↦ elim (Result-cases (check_submission env s sub req)) [
          | inl (u, c) ↦ accepted req e t c (simp (present, e, t, c))
          | inr (x, c) ↦ refused req x e t c (simp (present, e, t, c))
        ]
      ]
    ]
  ]

  store-record_fail :
      (req : PresentationRequest) (reason : String) (t : Service)
      → (record_fail env now req reason t).0.store ≡ t.store
  unfolding record_fail
  store-record_fail req reason t = store-announce env now req req.request_id _ _ t

  store-consume :
      (req : PresentationRequest)
      → (consume env now sub.request_id req s).0.store ≡ delete sub.request_id s.store
  unfolding consume
  store-consume req = store-announce env now req req.request_id _ _ _

  -- After an accepted submission the request is gone from the store, and nothing else is.
  pub store_of_ok :
      (req : PresentationRequest)
      → (verify_submission env now sub s).1 ≡ ok req
      → (verify_submission env now sub s).0.store ≡ delete sub.request_id s.store
  store_of_ok req h = go ending
    where
      go :
          Ending env now sub s (verify_submission env now sub s)
          → (verify_submission env now sub s).0.store ≡ delete sub.request_id s.store
      go (unnamed _ e) = absurd (cc (ap (λ r. r.1) e))
      go (unknown _ e) = absurd (cc (ap (λ r. r.1) e))
      go (late req' _ _ e) = absurd (unfold record_fail in cc (ap (λ r. r.1) e))
      go (refused req' reason _ _ _ e) = absurd (unfold record_fail in cc (ap (λ r. r.1) e))
      go (accepted req' _ _ _ e) = ap (λ r. r.0.store) e ∙ store-consume req'

  -- Whether the submission is complete and names a stored request that has expired.
  abbrev pub is_late : Bool
  is_late =
      not (sub.request_id == "" || sub.zkp_blob_b64 == "")
      && has_expired now (load sub.request_id s.store)

  -- A submission that is refused leaves the store as it was, unless it is complete and names a
  -- stored request that has expired: then it is refused as expired, that request is no longer
  -- stored, and every other request is stored as before.
  pub refused_keeps_store :
      (reason : String)
      → (verify_submission env now sub s).1 ≡ err reason
      → ((is_late ≡ false) × ((verify_submission env now sub s).0.store ≡ s.store))
        ⊎ ((is_late ≡ true)
            × (reason ≡ "request expired")
            × ((id : String)
                → load id (verify_submission env now sub s).0.store
                  ≡ (if sub.request_id == id then none else load id s.store)))
  unfolding verify_submission
  refused_keeps_store reason h =
      elim (Bool-cases (sub.request_id == "" || sub.zkp_blob_b64 == "")) [
        | inl missing ↦ inl (simp missing refl, simp missing refl)
        | inr present ↦ go present ending
      ]
    where
      go :
          (sub.request_id == "" || sub.zkp_blob_b64 == "") ≡ false
          → Ending env now sub s (verify_submission env now sub s)
          → ((is_late ≡ false) × ((verify_submission env now sub s).0.store ≡ s.store))
            ⊎ ((is_late ≡ true)
                × (reason ≡ "request expired")
                × ((id : String)
                    → load id (verify_submission env now sub s).0.store
                      ≡ (if sub.request_id == id then none else load id s.store)))
      go present (unnamed missing e) = absurd (cc (present, missing))
      go present (unknown absent e) = inl (simp (present, absent) refl, ap (λ r. r.0.store) e)
      go present (late req stored t e) = inr (
        simp (present, stored, t) refl,
        (unfold record_fail in cc (ap (λ r. r.1) e)),
        λ id.
            ap (λ r. load id r.0.store) e
            ∙ ap (load id) (store-record_fail req _ _)
            ∙ get-delete sub.request_id id s.store,
      )
      go present (refused req reason' stored t _ e) =
          inl (
            simp (present, stored, t) refl,
            ap (λ r. r.0.store) e ∙ store-record_fail req reason' s,
          )
      go present (accepted req _ _ _ e) = absurd (unfold consume in cc (ap (λ r. r.1) e))

pub load-delete : (id : String) (m : Dict.Dict PresentationRequest) → load id (delete id m) ≡ none
load-delete id m = get-delete id id m ∙ simp eq_refl

-- A submission for an id that is not stored changes nothing.
pub unknown_answer :
    (env : Env) (now : ℕ) (sub : ProofSubmission) (s : Service)
    → (sub.request_id == "") ≡ false
    → (sub.zkp_blob_b64 == "") ≡ false
    → load sub.request_id s.store ≡ none
    → verify_submission env now sub s ≡ (s, err "request not found or already used")
unfolding verify_submission
unknown_answer env now sub s named filled absent = simp (named, filled, absent)

-- A verdict for an answer: "verified", or "failed" with the reason that was returned.
abbrev pub verdict_for : ℕ → Result String PresentationRequest → Verdict
verdict_for now (ok _) = record {
  ok = true;
  reason = "";
  state = "verified";
  verified_at = some now;
}
verdict_for now (err reason) = record {
  ok = false;
  reason = reason;
  state = "failed";
  verified_at = none;
}

module _ (env : Env) (now : ℕ) (sub : ProofSubmission) (s : Service) where
  verdict-record_fail :
      (req : PresentationRequest) (reason other : String) (t : Service)
      → get_verdict other (record_fail env now req reason t).0 ≡ (
          if req.request_id == other
          then some (record { ok = false; reason = reason; state = "failed"; verified_at = none })
          else get_verdict other t)
  unfolding record_fail
  verdict-record_fail req reason other t = verdict-announce env now req req.request_id _ _ t other

  verdict-consume :
      (req : PresentationRequest) (id other : String)
      → get_verdict other (consume env now id req s).0 ≡ (
          if req.request_id == other
          then some (record { ok = true; reason = ""; state = "verified"; verified_at = some now })
          else get_verdict other s)
  unfolding consume get_verdict
  verdict-consume req id other = verdict-announce env now req req.request_id _ _ _ other

  -- A call that found its request records what it answered as that request's verdict; every
  -- other verdict stays as it was. (Requests are stored under their own id.)
  pub verify_submission_verdict :
      (req : PresentationRequest) (other : String)
      → (sub.request_id == "") ≡ false
      → (sub.zkp_blob_b64 == "") ≡ false
      → load sub.request_id s.store ≡ some req
      → req.request_id ≡ sub.request_id
      → get_verdict other (verify_submission env now sub s).0 ≡ (
          if sub.request_id == other
          then some (verdict_for now (verify_submission env now sub s).1)
          else get_verdict other s)
  verify_submission_verdict req other named filled stored same = go (ending env now sub s)
    where
      go :
          Ending env now sub s (verify_submission env now sub s)
          → get_verdict other (verify_submission env now sub s).0 ≡ (
              if sub.request_id == other
              then some (verdict_for now (verify_submission env now sub s).1)
              else get_verdict other s)
      go (unnamed m e) = absurd (ground arith)
      go (unknown absent e) = absurd (cc stored)
      go (late found there t e) =
          let one : found ≡ req = cc in
          rw (e, one)
            (verdict-record_fail req "request expired" other
                (record s { store = delete sub.request_id s.store })
              ∙ (unfold record_fail get_verdict in rw same refl))
      go (refused found reason there t c e) =
          let one : found ≡ req = cc in
          rw (e, one)
            (verdict-record_fail req reason other s ∙ (unfold record_fail in rw same refl))
      go (accepted found there t c e) =
          let one : found ≡ req = cc in
          rw (e, one) (verdict-consume req sub.request_id other ∙ (unfold consume in rw same refl))

  -- Once a submission has been accepted, every later submission for the same request with a blob is answered
  -- "request not found or already used" and changes nothing.
  accepted_once :
      (req : PresentationRequest) (later : ℕ) (again : ProofSubmission)
      → (verify_submission env now sub s).1 ≡ ok req
      → again.request_id ≡ sub.request_id
      → (again.zkp_blob_b64 == "") ≡ false
      → verify_submission env later again (verify_submission env now sub s).0
        ≡ ((verify_submission env now sub s).0, err "request not found or already used")
  accepted_once req later again h same filled =
      let a = (verify_submission-ok_iff env now sub s req).0 h in
      unknown_answer env later again (verify_submission env now sub s).0 (rw same a.named) filled
        (rw (store_of_ok env now sub s req h, same) (load-delete sub.request_id s.store))
