-- ===== src/Presentation/Steps/Sound.antt =====
-- What holds of the service of system/api/src/zkprequest after every call: its caches agree, its
-- requests are stored under their own ids and have keys, its listeners can be reached, and every
-- verdict will be deleted.
use digital_identity_system.Prelude.{
  ℕ, zero, suc, String, ◌≡◌, refl, sym, ap, ◌∙◌, subst, inl, inr, ◌⊎◌, Bool, true, false, ◌||◌,
  Option, none, some, List, [], ◌∷◌, ◌==◌, arith, eq_iff, leb, get_elem?, set, Bool-cases,
  Option-cases,
}
use digital_identity_system.Dict
use digital_identity_system.Dict.{Dict, get-put, get-remove}
use digital_identity_system.Presentation.Types.{
  PresentationRequest, Verdict, VerifyResult, Webhook, Timer, Service,
}
use digital_identity_system.Presentation.Env.{Env}
use digital_identity_system.Presentation.Caches.{schema_hash}
use digital_identity_system.Presentation.Caches.Laws.{IsCached}
use digital_identity_system.Presentation.Create.{save, load}
use digital_identity_system.Presentation.Create.Laws.{load-save}
use digital_identity_system.Presentation.Notify.{
  notify_waiters, register, receive, time_out, get_verdict, remove_at, fire_timer,
}
use digital_identity_system.Presentation.Notify.Waiters.{
  IsWaitable, notify_waiters-IsWaitable, register-IsWaitable, time_out-IsWaitable, received,
  receive-IsWaitable,
}
use digital_identity_system.Presentation.Handler.{CreatePresentationIn, attach_callback}
use digital_identity_system.Presentation.Steps.Settled.{
  IsWithin, Settled, quiet, settled, settled_service,
}

-- A timer for the id is pending.
unfoldable pub pending : String → List Timer → Bool
pending id [] = false
pending id (timer ∷ timers) = timer.id == id || pending id timers

pub record IsSound (env : Env) (s : Service) : Type 0 where
  pub cached : IsCached env s
  pub waitable : IsWaitable s
  pub own :
      (id : String) (req : PresentationRequest) → load id s.store ≡ some req → req.request_id ≡ id
  pub keyed :
      (id : String) (req : PresentationRequest)
      → load id s.store ≡ some req
      → Dict.has req.schema_hash s.vk_cache ≡ true
  pub hashed :
      (id : String) (req : PresentationRequest)
      → load id s.store ≡ some req
      → req.schema_hash ≡ schema_hash env req.schema_json
  pub timed : (id : String) (v : Verdict) → get_verdict id s ≡ some v → pending id s.timers ≡ true

IsWithin-inv :
    (m n : Dict PresentationRequest) (key : String) {req : PresentationRequest}
    → IsWithin m n
    → load key m ≡ some req
    → load key n ≡ some req
IsWithin-inv m n key within h = elim (within key) [ inl e ↦ absurd (cc (e, h)) | inr e ↦ sym e ∙ h ]

module _ (env : Env) (s : Service) (i : IsSound env s) where
  settled-IsSound :
      (now : ℕ) (id : String) (v : Verdict) (answer : VerifyResult) (m : Dict PresentationRequest)
      (hooks : List Webhook)
      → IsWithin m s.store
      → IsSound env (settled_service now id v answer m hooks s)
  unfolding notify_waiters pending get_verdict
  settled-IsSound now id v answer m hooks within = record {
    cached = record {
      same_pk = i.cached.same_pk;
      same_schema = i.cached.same_schema;
      hashed = i.cached.hashed;
    };
    waitable = still_waitable;
    own = λ key req h. i.own key req (IsWithin-inv m s.store key within h);
    keyed = λ key req h. i.keyed key req (IsWithin-inv m s.store key within h);
    hashed = λ key req h. i.hashed key req (IsWithin-inv m s.store key within h);
    timed = λ key w h. ground (arith, get-put id v key s.verdicts, i.timed key w);
  }
    where
      still_waitable : IsWaitable (settled_service now id v answer m hooks s)
      still_waitable =
          let w = notify_waiters-IsWaitable id answer s i.waitable in
          record { empty = w.empty; apart = w.apart }

  pub Settled-IsSound : (t : Service) → Settled s t → IsSound env t
  Settled-IsSound t (quiet e) = rw e i
  Settled-IsSound t (settled now id v answer m hooks within e) =
      rw e (settled-IsSound now id v answer m hooks within)

  -- Saving a request with a key keeps the service sound.
  pub saved-IsSound :
      (req : PresentationRequest)
      → Dict.has req.schema_hash s.vk_cache ≡ true
      → req.schema_hash ≡ schema_hash env req.schema_json
      → IsSound env (record s { store = save req s.store })
  unfolding get_verdict
  saved-IsSound req key hash = record {
    cached = record {
      same_pk = i.cached.same_pk;
      same_schema = i.cached.same_schema;
      hashed = i.cached.hashed;
    };
    waitable = record { empty = i.waitable.empty; apart = i.waitable.apart };
    own = λ id r h. ground (arith, load-save req id s.store, eq_iff req.request_id id, i.own id r);
    keyed = λ id r h. elim (found id r h) [ inl e ↦ rw (sym e) key | inr old ↦ i.keyed id r old ];
    hashed =
        λ id r h. elim (found id r h) [ inl e ↦ rw (sym e) hash | inr old ↦ i.hashed id r old ];
    timed = i.timed;
  }
    where
      found :
          (id : String) (r : PresentationRequest)
          → load id (save req s.store) ≡ some r
          → (req ≡ r) ⊎ (load id s.store ≡ some r)
      found id r h = elim (Bool-cases (req.request_id == id)) [
        | inl e ↦
            let new : load id (save req s.store) ≡ some req =
              load-save req id s.store ∙ simp e refl in
            inl (cc (sym new ∙ h))
        | inr e ↦
            let old : load id (save req s.store) ≡ load id s.store =
              load-save req id s.store ∙ simp e refl in
            inr (sym old ∙ h)
      ]

  pub attach_callback-IsSound :
      (input : CreatePresentationIn) (id : String) → IsSound env (attach_callback input id s)
  unfolding attach_callback
  attach_callback-IsSound input id = elim (Bool-cases (input.callback_url == "")) [
    | inl e ↦ simp e i
    | inr e ↦ elim (Option-cases (load id s.store)) [
      | inl absent ↦ simp (e, absent) i
      | inr (req, found) ↦
          simp (e, found)
            (saved-IsSound
              (record req {
                callback_url = input.callback_url;
                callback_secret = input.callback_secret;
              })
              (i.keyed id req found) (i.hashed id req found))
    ]
  ]

  -- Only the listeners and the channels change.
  heard-IsSound :
      (waiters : Dict (List ℕ)) (channels : List (Option VerifyResult))
      → IsWaitable (record s { waiters = waiters; channels = channels })
      → IsSound env (record s { waiters = waiters; channels = channels })
  unfolding get_verdict
  heard-IsSound waiters channels w = record {
    cached = record {
      same_pk = i.cached.same_pk;
      same_schema = i.cached.same_schema;
      hashed = i.cached.hashed;
    };
    waitable = w;
    own = i.own;
    keyed = i.keyed;
    hashed = i.hashed;
    timed = i.timed;
  }

  pub register-IsSound : (id : String) → IsSound env (register id s).0
  unfolding register
  register-IsSound id =
      heard-IsSound (register id s).0.waiters (register id s).0.channels
        (register-IsWaitable id s i.waitable)

  pub time_out-IsSound : (id : String) (ch : ℕ) → IsSound env (time_out id ch s).0
  unfolding time_out
  time_out-IsSound id ch =
      heard-IsSound (time_out id ch s).0.waiters s.channels (time_out-IsWaitable id s i.waitable ch)

  pub receive-IsSound :
      (ch : ℕ) (t : Service) (res : VerifyResult) → receive ch s ≡ some (t, res) → IsSound env t
  receive-IsSound ch t res h =
      let (full, e) = received ch s t res i.waitable h in
      subst (IsSound env) (sym e) (
        heard-IsSound s.waiters (set s.channels ch none)
          (subst IsWaitable e (receive-IsWaitable ch s t res i.waitable h)))

pending-remove_at :
    (id : String) (timer : Timer) (n : ℕ) (timers : List Timer)
    → get_elem? timers n ≡ some timer
    → (timer.id == id) ≡ false
    → pending id (remove_at n timers) ≡ pending id timers
unfolding pending remove_at
pending-remove_at id timer n [] found differ = refl
pending-remove_at id timer zero (t ∷ timers) found differ =
    let one : t ≡ timer = cc in rw one (simp differ refl)
pending-remove_at id timer (suc n) (t ∷ timers) found differ =
    ap (λ b. t.id == id || b) (pending-remove_at id timer n timers found differ)

module _ (env : Env) (s : Service) (i : IsSound env s) where
  fired-IsSound :
      (n : ℕ) (timer : Timer)
      → get_elem? s.timers n ≡ some timer
      → IsSound env
          (record s { verdicts = Dict.remove timer.id s.verdicts; timers = remove_at n s.timers })
  unfolding get_verdict
  fired-IsSound n timer found = record {
    cached = record {
      same_pk = i.cached.same_pk;
      same_schema = i.cached.same_schema;
      hashed = i.cached.hashed;
    };
    waitable = record { empty = i.waitable.empty; apart = i.waitable.apart };
    own = i.own;
    keyed = i.keyed;
    hashed = i.hashed;
    timed = λ id v h. elim (Bool-cases (timer.id == id)) [
      | inl e ↦ absurd (cc (rw (get-remove timer.id id s.verdicts, e) at h))
      | inr e ↦
          pending-remove_at id timer n s.timers found e
          ∙ i.timed id v (rw (get-remove timer.id id s.verdicts, e) at h)
    ];
  }

  pub fire_timer-IsSound : (now n : ℕ) → IsSound env (fire_timer now n s)
  unfolding fire_timer
  fire_timer-IsSound now n = elim (Option-cases (get_elem? s.timers n)) [
    | inl e ↦ rw (e, fire_timer) i
    | inr (timer, e) ↦ elim (Bool-cases (leb timer.due now)) [
      | inl d ↦ rw (e, d, fire_timer) (fired-IsSound n timer e)
      | inr d ↦ rw (e, d, fire_timer) i
    ]
  ]
