-- ===== src/Identity/Queue.antt =====
-- What queueing a verification does (system/api/src/identity/service.go, repository.go).
use digital_identity_system.Prelude.{
  String, ◌≡◌, refl, ◌∙◌, eq_refl, Bool, false, Option, none, some, [], inl, inr, Option-cases,
  if◌then◌else◌, ok, err,
}
use digital_identity_system.Dict
use digital_identity_system.Dict.{Dict, get-put}
use digital_identity_system.Outbox.{OutboxEvent, new_event, process_outbox_events}
use digital_identity_system.Outbox.Laws.{Reached, added}
use digital_identity_system.Outbox.Rounds.{fresh_event, nothing_republished}
use digital_identity_system.Identity.{
  VerificationRequest, QueueError, bad_uuid, no_schema, not_published, Outside, failed, queue_ids,
  publish_stored, queue_verification, handle_queue_verification,
}

-- What the service answers, by the parse of the id of the schema.
abbrev pub refusal : Option String → QueueError
refusal none = bad_uuid
refusal (some _) = no_schema

module _ {Field : Type 0} (outside : Outside Field) (request : VerificationRequest Field) where
  queue_ids_refused :
      queue_ids outside request ≡ err (refusal (outside.parse_uuid request.schema_id))
  unfolding queue_ids
  queue_ids_refused = elim (Option-cases (outside.parse_uuid request.schema_id)) [
    | inl e ↦ rw (e, queue_ids) refl
    | inr (id, e) ↦ rw (e, queue_ids) refl
  ]

  queue_refused :
      (reached : Bool) (drawn : String) (events : Dict OutboxEvent)
      → queue_verification outside reached drawn request events
        ≡ (events, err (refusal (outside.parse_uuid request.schema_id)))
  unfolding queue_verification
  queue_refused reached drawn events = rw (queue_ids_refused, queue_verification) refl

  -- No verification is ever queued: whatever the request, the events, the query for a schema and
  -- the queue are, `QueueVerification` stores no event and answers an error, which is that of the
  -- parser if the id of the schema is no UUID and that of `GetSchemaById` otherwise, since the
  -- model that it queries has no table; and the endpoint answers 500.
  pub queue_verification_refuses :
      (reached : Bool) (drawn : String) (events : Dict OutboxEvent)
      → (queue_verification outside reached drawn request events
          ≡ (events, err (refusal (outside.parse_uuid request.schema_id))))
        × (handle_queue_verification outside reached drawn (some request) events
            ≡ (events, failed 500))
  unfolding handle_queue_verification
  queue_verification_refuses reached drawn events =
      let refused = queue_refused reached drawn events in
      (refused, rw (refused, handle_queue_verification) refl)

-- The part of `QueueVerification` after the schema was found. In a table that the operations make, a
-- message under a new event id is stored without retries, and published if the queue takes it. If
-- the queue does not take it, the caller gets an error, and the event stays in the table, where the
-- worker never finds it.
publish_stored_new :
    {Field : Type 0} (outside : Outside Field) (reached : Bool)
    (drawn identity schema message : String) (events : Dict OutboxEvent)
    → Reached events
    → Dict.has drawn events ≡ false
    → let after =
        publish_stored outside reached
          (record { event_id = drawn; body = message })
          events
          (new_event drawn identity schema message events) in
      (after ≡ (
        Dict.put drawn (fresh_event drawn identity schema message) events,
        if reached then ok (record { event_id = drawn; body = message }) else err not_published,
      ))
      × (process_outbox_events after.0 ≡ [])
unfolding publish_stored
publish_stored_new outside reached drawn identity schema message events before fresh =
    let event = fresh_event drawn identity schema message in
    let stored : new_event drawn identity schema message events ≡ ok (Dict.put drawn event events) =
      (unfold new_event in simp fresh refl) in
    (
      rw (stored, publish_stored) refl,
      rw (stored, publish_stored)
          (nothing_republished (Dict.put drawn event events) drawn event
            (added drawn identity schema message events _ before stored)
            (get-put drawn event drawn events ∙ simp (eq_refl drawn) refl)).1,
    )
