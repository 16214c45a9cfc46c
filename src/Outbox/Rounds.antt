-- ===== src/Outbox/Rounds.antt =====
-- What the worker of system/api/src/outbox/outbox_worker.go finds to publish.
use digital_identity_system.Prelude.{
  ℕ, ◌≤◌, String, ◌≡◌, refl, subst, inl, inr, false, none, some, [], ◌∷◌, leb, arith, ok,
  Bool-cases, Option-cases, Result-cases,
}
use digital_identity_system.Dict
use digital_identity_system.Dict.{Dict}
use digital_identity_system.Outbox.{
  OutboxEvent, get_event, new_event, is_selected, get_unprocessed_events, mark_event_as_processed,
  update_retry_value, process_outbox_events,
}
use digital_identity_system.Outbox.Laws.{
  Reached, start, added, marked, retried, IsTidy, AreTidy, AreTidy-get, AreTidy-put,
  AreTidy-put_twice, get_event-eq-ok, counted, update_retry_value_cases,
}

counted-IsTidy :
    (now : ℕ) (e : OutboxEvent) → IsTidy e → leb 5 e.retry ≡ false → IsTidy (counted now e)
counted-IsTidy now e tidy few = record {
  quiet = tidy.quiet;
  bounded = ground arith;
  open_bounded = λ _. ground arith;
}

closed-IsTidy :
    (now : ℕ) (e : OutboxEvent)
    → IsTidy e
    → e.processed_at ≡ none
    → IsTidy (record (counted now e) { processed_at = some now })
closed-IsTidy now e tidy still = record {
  quiet = tidy.quiet;
  bounded = omega (arith, tidy.open_bounded still);
  open_bounded = λ h. absurd (cc h);
}

abbrev pub fresh_event : (drawn identity schema message : String) → OutboxEvent
fresh_event drawn identity schema message = record {
  event_id = drawn;
  identity_id = identity;
  schema_id = schema;
  retry = 0;
  to_process = false;
  request_message = message;
  processed_at = none;
}

new_event-AreTidy :
    (drawn identity schema message : String) (m n : Dict OutboxEvent)
    → AreTidy m
    → new_event drawn identity schema message m ≡ ok n
    → AreTidy n
unfolding new_event
new_event-AreTidy drawn identity schema message m n tidy h = elim (Bool-cases (Dict.has drawn m)) [
  | inl there ↦ absurd (cc (simp there at h))
  | inr fresh ↦
      let same : Dict.put drawn (fresh_event drawn identity schema message) m ≡ n =
        cc (simp fresh at h) in
      subst AreTidy same (
        AreTidy-put drawn (fresh_event drawn identity schema message) m
          (record { quiet = refl; bounded = omega arith; open_bounded = λ _. omega arith }) tidy)
]

mark_event_as_processed-AreTidy :
    (now : ℕ) (id : String) (m n : Dict OutboxEvent)
    → AreTidy m
    → mark_event_as_processed now id m ≡ ok n
    → AreTidy n
unfolding mark_event_as_processed
mark_event_as_processed-AreTidy now id m n tidy h = elim (Result-cases (get_event id m)) [
  | inr (x, e) ↦ absurd (cc (rw e at h))
  | inl (e, found) ↦
      let (there, still) = get_event-eq-ok id m found in
      let was = AreTidy-get id m tidy there in
      let same : Dict.put id (record e { processed_at = some now }) m ≡ n = cc (rw found at h) in
      subst AreTidy same (
        AreTidy-put id (record e { processed_at = some now }) m
          (record { quiet = was.quiet; bounded = was.bounded; open_bounded = λ k. absurd (cc k) })
          tidy)
]

update_retry_value-AreTidy :
    (now : ℕ) (id : String) (m n : Dict OutboxEvent)
    → AreTidy m
    → update_retry_value now id m ≡ ok n
    → AreTidy n
unfolding update_retry_value
update_retry_value-AreTidy now id m n tidy h = elim (Result-cases (get_event id m)) [
  | inr (x, e) ↦ absurd (cc (rw e at h))
  | inl (e, found) ↦
      let (there, still) = get_event-eq-ok id m found in
      let was = AreTidy-get id m tidy there in
      let closed = record (counted now e) { processed_at = some now } in
      elim (update_retry_value_cases now id m e found) [
        | inl (few, done) ↦
            let same : Dict.put id (counted now e) m ≡ n = cc (done, h) in
            subst AreTidy same
              (AreTidy-put id (counted now e) m (counted-IsTidy now e was few) tidy)
        | inr (many, done) ↦
            let same : Dict.put id closed (Dict.put id (counted now e) m) ≡ n = cc (done, h) in
            subst AreTidy same
              (AreTidy-put_twice id closed (counted now e) m (closed-IsTidy now e was still) tidy)
      ]
]

Reached-AreTidy : (m : Dict OutboxEvent) → Reached m → AreTidy m
Reached-AreTidy m start = tt
Reached-AreTidy n (added drawn identity schema message m _ reached h) =
    new_event-AreTidy drawn identity schema message m n (Reached-AreTidy m reached) h
Reached-AreTidy n (marked now id m _ reached h) =
    mark_event_as_processed-AreTidy now id m n (Reached-AreTidy m reached) h
Reached-AreTidy n (retried now id m _ reached h) =
    update_retry_value-AreTidy now id m n (Reached-AreTidy m reached) h

not_selected : (e : OutboxEvent) → IsTidy e → is_selected e ≡ false
unfolding is_selected
not_selected e tidy = elim (Option-cases e.processed_at) [
  | inl still ↦ rw (still, is_selected) tidy.quiet
  | inr (when, closed) ↦ rw (closed, is_selected) refl
]

none_selected : (m : Dict OutboxEvent) → AreTidy m → get_unprocessed_events m ≡ []
unfolding get_unprocessed_events
none_selected [] tidy = refl
none_selected ((k, e) ∷ m) tidy = simp (not_selected e tidy.0) (none_selected m tidy.1)

-- Whatever events are stored, marked and retried, starting from an empty table: no event has more
-- than six retries, and the worker finds nothing to publish, since every event is stored with
-- `to_process` false, nothing sets it, and the worker asks for events where it is true.
pub nothing_republished :
    (m : Dict OutboxEvent) (id : String) (e : OutboxEvent)
    → Reached m
    → Dict.get id m ≡ some e
    → (e.retry ≤ 6) × (process_outbox_events m ≡ [])
unfolding process_outbox_events
nothing_republished m id e reached found =
    let tidy = Reached-AreTidy m reached in
    ((AreTidy-get id m tidy found).bounded, rw (none_selected m tidy) refl)
