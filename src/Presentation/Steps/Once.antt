-- ===== src/Presentation/Steps/Once.antt =====
-- A request of system/api/src/zkprequest that is used is used for good.
use digital_identity_system.Prelude.{
  ℕ, String, ◌≡◌, refl, sym, ap, ◌∙◌, subst, inl, inr, false, Option, none, some, ◌==◌, eq_iff, leb,
  get_elem?, Result, ok, err, Bool-cases, Option-cases, Result-cases,
}
use digital_identity_system.Prelude.Int.{ℤ}
use digital_identity_system.Presentation.Types.{ProofSubmission, PresentationRequest, Service}
use digital_identity_system.Presentation.Env.{Env}
use digital_identity_system.Presentation.Caches.{CreateError}
use digital_identity_system.Presentation.Create.{load, Draws, create_request_from_schema}
use digital_identity_system.Presentation.Create.Laws.{
  load-save, create_request_from_schema_ok, create_request_from_schema_err,
}
use digital_identity_system.Presentation.Notify.{register, time_out, fire_timer}
use digital_identity_system.Presentation.Verify.{verify_submission, mock_verify}
use digital_identity_system.Presentation.Verify.Accepts.{verify_submission-ok_iff}
use digital_identity_system.Presentation.Verify.Laws.{store_of_ok, load-delete, unknown_answer}
use digital_identity_system.Presentation.Handler.{
  CreatePresentationIn, Links, attach_callback, finish_create, create_presentation,
  verify_presentation, wait_for, begin_blocking,
}
use digital_identity_system.Presentation.Steps.{
  Step, creates, blocks, verifies, mocks, hears, gives_up, fires, History, done, next,
}
use digital_identity_system.Presentation.Steps.Settled.{
  Settled, quiet, settled, verify_submission-Settled, mock_verify-Settled,
}
use digital_identity_system.Presentation.Steps.Sound.{IsSound, Settled-IsSound}
use digital_identity_system.Presentation.Steps.Creates.{create_request_from_schema-IsSound}
use digital_identity_system.Presentation.Notify.Waiters.{received}
use digital_identity_system.Presentation.Steps.Invariant.{verify_presentation-Settled, Step-IsSound}

-- A step that draws an id does not draw this one.
abbrev pub Avoids : String → Option String → Type 0
Avoids id none = Unit
Avoids id (some drawn) = (drawn == id) ≡ false

module _ (env : Env) (id : String) where
  -- Nothing is stored under the id.
  abbrev IsAbsent : Service → Type 0
  IsAbsent s = load id s.store ≡ none

  Settled-IsAbsent : (s t : Service) → Settled s t → IsAbsent s → IsAbsent t
  Settled-IsAbsent s t (quiet e) absent = subst IsAbsent (sym e) absent
  Settled-IsAbsent s t (settled now key v answer m hooks within e) absent =
      subst IsAbsent (sym e) (elim (within id) [ inl gone ↦ gone | inr kept ↦ kept ∙ absent ])

  create_request_from_schema-IsAbsent :
      (s : Service) (now : ℕ) (draws : Draws) (text : String)
      → (draws.request_id == id) ≡ false
      → IsAbsent s
      → IsAbsent (create_request_from_schema env s now draws text).0
  create_request_from_schema-IsAbsent s now draws text differ absent =
      elim (Result-cases (create_request_from_schema env s now draws text).1) [
        | inl (req, e) ↦
            let fresh = create_request_from_schema_ok env s now draws text req e in
            fresh.others id ∙ simp differ absent
        | inr (x, e) ↦
            subst IsAbsent (sym (create_request_from_schema_err env s now draws text x e)) absent
      ]

  attach_callback-IsAbsent :
      (input : CreatePresentationIn) (key : String) (s : Service)
      → IsSound env s
      → IsAbsent s
      → IsAbsent (attach_callback input key s)
  unfolding attach_callback
  attach_callback-IsAbsent input key s i absent = elim (Bool-cases (input.callback_url == "")) [
    | inl e ↦ simp e absent
    | inr e ↦ elim (Option-cases (load key s.store)) [
      | inl none_there ↦ simp (e, none_there) absent
      | inr (req, found) ↦
          let changed = record req {
            callback_url = input.callback_url;
            callback_secret = input.callback_secret;
          } in
          simp (e, found)
            (load-save changed id s.store ∙ (elim (Bool-cases (req.request_id == id)) [
              | inl same ↦
                  let one : key ≡ id =
                    sym (i.own key req found) ∙ (eq_iff req.request_id id).0 same in
                  absurd (cc (sym found ∙ subst (λ k. load k s.store ≡ none) (sym one) absent))
              | inr other ↦ simp other absent
            ]))
    ]
  ]

  finish_create-IsAbsent :
      (links : Links) (input : CreatePresentationIn)
      (r : Service × Result CreateError PresentationRequest)
      → IsSound env r.0
      → IsAbsent r.0
      → IsAbsent (finish_create env links input r).0
  unfolding finish_create
  finish_create-IsAbsent links input (t, err e) sound absent = absent
  finish_create-IsAbsent links input (t, ok req) sound absent =
      attach_callback-IsAbsent input req.request_id t sound absent

  create_presentation-IsAbsent :
      (links : Links) (now : ℕ) (draws : Draws) (body : Option CreatePresentationIn) (s : Service)
      → (draws.request_id == id) ≡ false
      → IsSound env s
      → IsAbsent s
      → IsAbsent (create_presentation env links now draws body s).0
  unfolding create_presentation
  create_presentation-IsAbsent links now draws none s differ i absent = absent
  create_presentation-IsAbsent links now draws (some input) s differ i absent =
      finish_create-IsAbsent links input
        (create_request_from_schema env s now draws input.schema_json)
        (create_request_from_schema-IsSound env s i now draws input.schema_json)
        (create_request_from_schema-IsAbsent s now draws input.schema_json differ absent)

  wait_for-IsAbsent :
      (timeout : ℤ) (r : Service × Result CreateError PresentationRequest)
      → IsAbsent r.0
      → IsAbsent (wait_for env timeout r).0
  unfolding wait_for register
  wait_for-IsAbsent timeout (t, err e) absent = absent
  wait_for-IsAbsent timeout (t, ok req) absent = absent

  begin_blocking-IsAbsent :
      (now : ℕ) (draws : Draws) (body : Option (String × ℤ)) (s : Service)
      → (draws.request_id == id) ≡ false
      → IsAbsent s
      → IsAbsent (begin_blocking env now draws body s).0
  unfolding begin_blocking
  begin_blocking-IsAbsent now draws none s differ absent = absent
  begin_blocking-IsAbsent now draws (some (text, timeout)) s differ absent =
      wait_for-IsAbsent timeout (create_request_from_schema env s now draws text)
        (create_request_from_schema-IsAbsent s now draws text differ absent)

  store-fire_timer : (now n : ℕ) (s : Service) → (fire_timer now n s).store ≡ s.store
  unfolding fire_timer
  store-fire_timer now n s = elim (Option-cases (get_elem? s.timers n)) [
    | inl e ↦ rw (e, fire_timer) refl
    | inr (timer, e) ↦ elim (Bool-cases (leb timer.due now)) [
      | inl d ↦ rw (e, d, fire_timer) refl
      | inr d ↦ rw (e, d, fire_timer) refl
    ]
  ]

  store-time_out : (key : String) (ch : ℕ) (s : Service) → (time_out key ch s).0.store ≡ s.store
  unfolding time_out
  store-time_out key ch s = refl

  Step-IsAbsent :
      (links : Links) (drawn : Option String) (s t : Service)
      → Avoids id drawn
      → Step env links drawn s t
      → IsSound env s
      → IsAbsent s
      → IsAbsent t
  Step-IsAbsent links drawn s t avoids (creates now draws body d e) i absent =
      subst IsAbsent (sym e)
        (create_presentation-IsAbsent links now draws body s (subst (Avoids id) d avoids) i absent)
  Step-IsAbsent links drawn s t avoids (blocks now draws body d e) i absent =
      subst IsAbsent (sym e)
        (begin_blocking-IsAbsent now draws body s (subst (Avoids id) d avoids) absent)
  Step-IsAbsent links drawn s t avoids (verifies now body e) i absent = subst IsAbsent (sym e) (
      Settled-IsAbsent s (verify_presentation env links now body s).0
        (verify_presentation-Settled env links now body s) absent)
  Step-IsAbsent links drawn s t avoids (mocks now key e) i absent =
      subst IsAbsent (sym e) (
        Settled-IsAbsent s (mock_verify env now key s).0 (mock_verify-Settled env now s key) absent)
  Step-IsAbsent links drawn s t avoids (hears ch res h) i absent =
      subst IsAbsent (sym (received ch s t res i.waitable h).1) absent
  Step-IsAbsent links drawn s t avoids (gives_up key ch e) i absent =
      ap (λ u. load id u.store) e ∙ ap (load id) (store-time_out key ch s) ∙ absent
  Step-IsAbsent links drawn s t avoids (fires now n e) i absent =
      ap (λ u. load id u.store) e ∙ ap (load id) (store-fire_timer now n s) ∙ absent

  History-IsAbsent :
      (links : Links) (t s : Service)
      → History env links (Avoids id) t s
      → IsSound env s
      → IsAbsent s
      → IsAbsent t
  History-IsAbsent links t s done i absent = absent
  History-IsAbsent links t s (next drawn _ mid avoids step rest) i absent =
      History-IsAbsent links t mid rest (Step-IsSound env links drawn s mid step i)
        (Step-IsAbsent links drawn s mid avoids step i absent)

-- Once a submission has been accepted by a sound service, every submission for the same request
-- with a blob is answered "request not found or already used", after whatever history of calls,
-- waits and timers, as long as no creation draws that id again.
pub used_once :
    (env : Env) (links : Links) (s t : Service) (now later : ℕ) (sub again : ProofSubmission)
    (req : PresentationRequest)
    → IsSound env s
    → (verify_submission env now sub s).1 ≡ ok req
    → History env links (Avoids sub.request_id) t (verify_submission env now sub s).0
    → again.request_id ≡ sub.request_id
    → (again.zkp_blob_b64 == "") ≡ false
    → verify_submission env later again t ≡ (t, err "request not found or already used")
used_once env links s t now later sub again req i h history same filled =
    let a = (verify_submission-ok_iff env now sub s req).0 h in
    let after = (verify_submission env now sub s).0 in
    let gone : load sub.request_id after.store ≡ none =
      rw (store_of_ok env now sub s req h) (load-delete sub.request_id s.store) in
    let sound = Settled-IsSound env s i after (verify_submission-Settled env now s sub) in
    unknown_answer env later again t (rw same a.named) filled
      (rw same (History-IsAbsent env sub.request_id links t after history sound gone))
