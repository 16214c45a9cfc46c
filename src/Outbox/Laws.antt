-- ===== src/Outbox/Laws.antt =====
-- What the table of system/api/src/outbox holds, and what a failure changes.
use digital_identity_system.Prelude.{
  ℕ, ◌+◌, ◌≤◌, String, ◌≡◌, refl, sym, ap, ◌∙◌, subst, inl, inr, ◌⊎◌, true, false, none, some, [],
  ◌∷◌, ◌==◌, eq_refl, leb, if◌then◌else◌, ok, err, All, Bool-cases, Option-cases,
}
use digital_identity_system.Dict
use digital_identity_system.Dict.{Dict, get-put}
use digital_identity_system.Outbox.{
  OutboxEvent, not_found, open_event, get_event, new_event, mark_event_as_processed,
  update_retry_value,
}

-- The tables that the operations make from the empty one.
pub data Reached : Dict OutboxEvent → Type 0 where
  start : Reached []
  added :
      (drawn identity schema message : String) (m n : Dict OutboxEvent)
      → Reached m
      → new_event drawn identity schema message m ≡ ok n
      → Reached n
  marked :
      (now : ℕ) (id : String) (m n : Dict OutboxEvent)
      → Reached m
      → mark_event_as_processed now id m ≡ ok n
      → Reached n
  retried :
      (now : ℕ) (id : String) (m n : Dict OutboxEvent)
      → Reached m
      → update_retry_value now id m ≡ ok n
      → Reached n

-- An event is not to be processed, has at most six retries, and at most five while it is open.
pub record IsTidy (e : OutboxEvent) : Type 0 where
  pub quiet : e.to_process ≡ false
  pub bounded : e.retry ≤ 6
  pub open_bounded : e.processed_at ≡ none → e.retry ≤ 5

abbrev pub AreTidy : Dict OutboxEvent → Type 0
AreTidy m = All (λ p. IsTidy p.1) m

pub AreTidy-get :
    (id : String) (m : Dict OutboxEvent) {e : OutboxEvent}
    → AreTidy m
    → Dict.get id m ≡ some e
    → IsTidy e
unfolding Dict.get
AreTidy-get id [] tidy h = absurd (cc h)
AreTidy-get id ((k, f) ∷ m) {e} tidy h = elim (Bool-cases (k == id)) [
  | inl same ↦ let one : f ≡ e = cc (simp same at h) in subst IsTidy one tidy.0
  | inr other ↦ AreTidy-get id m tidy.1 (simp other at h)
]

AreTidy-remove : (id : String) (m : Dict OutboxEvent) → AreTidy m → AreTidy (Dict.remove id m)
unfolding Dict.remove
AreTidy-remove id [] tidy = tt
AreTidy-remove id ((k, f) ∷ m) tidy = elim (Bool-cases (k == id)) [
  | inl same ↦ simp same (AreTidy-remove id m tidy.1)
  | inr other ↦ simp other ((tidy.0, AreTidy-remove id m tidy.1))
]

pub AreTidy-put :
    (id : String) (e : OutboxEvent) (m : Dict OutboxEvent)
    → IsTidy e
    → AreTidy m
    → AreTidy (Dict.put id e m)
unfolding Dict.put
AreTidy-put id e m here rest = (here, AreTidy-remove id m rest)

-- An entry that is put twice stands there once.
pub AreTidy-put_twice :
    (id : String) (e f : OutboxEvent) (m : Dict OutboxEvent)
    → IsTidy e
    → AreTidy m
    → AreTidy (Dict.put id e (Dict.put id f m))
unfolding Dict.put Dict.remove
AreTidy-put_twice id e f m here rest =
    (here, simp (eq_refl id) (AreTidy-remove id (Dict.remove id m) (AreTidy-remove id m rest)))

open_event-none : (e : OutboxEvent) → e.processed_at ≡ none → open_event e ≡ ok e
unfolding open_event
open_event-none e still = ap (λ p. elim p [ none ↦ ok e | some _ ↦ err not_found ]) still

pub open_event-some :
    (e : OutboxEvent) {when : ℕ} → e.processed_at ≡ some when → open_event e ≡ err not_found
unfolding open_event
open_event-some e closed = ap (λ p. elim p [ none ↦ ok e | some _ ↦ err not_found ]) closed

pub get_event-eq-ok :
    (id : String) (m : Dict OutboxEvent) {e : OutboxEvent}
    → get_event id m ≡ ok e
    → (Dict.get id m ≡ some e) × (e.processed_at ≡ none)
unfolding get_event
get_event-eq-ok id m {e} h = elim (Option-cases (Dict.get id m)) [
  | inl none_there ↦ absurd (cc (rw (none_there, get_event) at h))
  | inr (f, there) ↦ elim (Option-cases f.processed_at) [
    | inl still ↦
        let one : f ≡ e = cc (rw (there, get_event) at h, open_event-none f still) in
        (there ∙ ap some one, subst (λ x. x.processed_at ≡ none) one still)
    | inr (when, done) ↦ absurd (cc (rw (there, get_event) at h, open_event-some f done))
  ]
]

get_event_open :
    (id : String) (m : Dict OutboxEvent) {e : OutboxEvent}
    → Dict.get id m ≡ some e
    → e.processed_at ≡ none
    → get_event id m ≡ ok e
unfolding get_event
get_event_open id m {e} there still = rw (there, get_event) (open_event-none e still)

-- What one failure does to an open event.
abbrev pub retried_event : ℕ → OutboxEvent → OutboxEvent
retried_event now e = record e {
  retry = e.retry + 1;
  processed_at = if leb 5 e.retry then some now else none;
}

module _ (now : ℕ) (e : OutboxEvent) where
  abbrev pub counted : OutboxEvent
  counted = record e { retry = e.retry + 1 }

  counted_early : leb 5 e.retry ≡ false → e.processed_at ≡ none → counted ≡ retried_event now e
  counted_early few still =
      let keeps : (if leb 5 e.retry then some now else none) ≡ none = simp few refl in
      ap (λ p. record e { retry = e.retry + 1; processed_at = p }) (still ∙ sym keeps)

  counted_late :
      leb 5 e.retry ≡ true → record counted { processed_at = some now } ≡ retried_event now e
  counted_late many =
      let closes : (if leb 5 e.retry then some now else none) ≡ some now = simp many refl in
      ap (λ p. record e { retry = e.retry + 1; processed_at = p }) (sym closes)

-- The table after a failure of an open event.
pub update_retry_value_cases :
    (now : ℕ) (id : String) (m : Dict OutboxEvent) (e : OutboxEvent)
    → get_event id m ≡ ok e
    → ((leb 5 e.retry ≡ false) × (update_retry_value now id m ≡ ok (Dict.put id (counted now e) m)))
      ⊎ (leb 5 e.retry ≡ true)
        × (update_retry_value now id m
            ≡ ok (
                Dict.put id
                  (record (counted now e) { processed_at = some now })
                  (Dict.put id (counted now e) m)))
unfolding update_retry_value mark_event_as_processed
update_retry_value_cases now id m e found =
    let (there, still) = get_event-eq-ok id m found in
    let again : get_event id (Dict.put id (counted now e) m) ≡ ok (counted now e) =
      get_event_open id (Dict.put id (counted now e) m)
        (get-put id (counted now e) id m ∙ simp (eq_refl id) refl) still in
    elim (Bool-cases (leb 5 e.retry)) [
      | inr few ↦ inl (few, rw (found, few) refl)
      | inl many ↦ inr (many, rw (found, many, again) refl)
    ]

-- A failure of an open event raises its retries by one and closes it if it had failed five times
-- before; no other event changes.
pub update_retry_value_open :
    (now : ℕ) (id other : String) (m : Dict OutboxEvent) (e : OutboxEvent)
    → Dict.get id m ≡ some e
    → e.processed_at ≡ none
    → (n : Dict OutboxEvent) × (update_retry_value now id m ≡ ok n)
      × (Dict.get other n ≡ (if id == other then some (retried_event now e) else Dict.get other m))
update_retry_value_open now id other m e there still =
    elim (update_retry_value_cases now id m e (get_event_open id m there still)) [
      | inl (few, done) ↦ (
        Dict.put id (counted now e) m,
        done,
        get-put id (counted now e) other m
            ∙ ap (λ x. if id == other then some x else Dict.get other m)
                (counted_early now e few still),
      )
      | inr (many, done) ↦ (
        Dict.put id (record (counted now e) { processed_at = some now })
            (Dict.put id (counted now e) m),
        done,
        get-put id (record (counted now e) { processed_at = some now }) other
              (Dict.put id (counted now e) m)
            ∙ (elim (Bool-cases (id == other)) [
              | inl same ↦ simp same (ap some (counted_late now e many))
              | inr differ ↦ simp differ (get-put id (counted now e) other m ∙ simp differ refl)
            ]),
      )
    ]
