-- ===== src/Outbox.antt =====
-- system/api/src/outbox: the table of events that wait for the blockchain, and the worker that
-- publishes them again. The database answers every query; a transaction that fails leaves the
-- table as it was. `processed_at` is gorm's soft-delete column, so a query without `Unscoped` sees
-- only events where it is null.
pub mod Laws
pub mod Rounds
use digital_identity_system.Prelude.{
  ℕ, zero, suc, ◌+◌, String, Bool, true, false, Option, none, some, List, [], ◌∷◌, leb,
  if◌then◌else◌, map, Result, ok, err, ◌>>=◌,
}
use digital_identity_system.Dict
use digital_identity_system.Dict.{Dict}

abbrev pub max_retries : ℕ
max_retries = 5

pub record OutboxEvent : Type 0 where
  pub event_id : String
  pub identity_id : String
  pub schema_id : String
  pub retry : ℕ
  pub to_process : Bool
  pub request_message : String
  pub processed_at : Option ℕ

pub data OutboxError : Type 0 where
  not_found not_unique : OutboxError

-- `ZeroKnowledgeProofToVerification`
pub record ToVerification : Type 0 where
  pub event_id : String
  pub body : String

-- An event if it is not processed.
unfoldable pub open_event : OutboxEvent → Result OutboxError OutboxEvent
open_event e = elim e.processed_at [ none ↦ ok e | some _ ↦ err not_found ]

unfoldable pub get_event : String → Dict OutboxEvent → Result OutboxError OutboxEvent
unfolding open_event
get_event id events = elim (Dict.get id events) [ none ↦ err not_found | some e ↦ open_event e ]

-- `drawn` is the new UUID.
unfoldable pub new_event :
    (drawn identity_id schema_id message : String)
    → Dict OutboxEvent
    → Result OutboxError (Dict OutboxEvent)
new_event drawn identity_id schema_id message events =
    let event : OutboxEvent = record {
      event_id = drawn;
      identity_id = identity_id;
      schema_id = schema_id;
      retry = 0;
      to_process = false;
      request_message = message;
      processed_at = none;
    } in
    if Dict.has drawn events then err not_unique else ok (Dict.put drawn event events)

-- Whether the query of `GetUnprocessedEvents` selects the event.
unfoldable pub is_selected : OutboxEvent → Bool
is_selected e = elim e.processed_at [ none ↦ e.to_process | some _ ↦ false ]

unfoldable pub get_unprocessed_events : Dict OutboxEvent → List OutboxEvent
unfolding is_selected
get_unprocessed_events [] = []
get_unprocessed_events ((_, e) ∷ events) =
    let rest = get_unprocessed_events events in if is_selected e then e ∷ rest else rest

unfoldable pub mark_event_as_processed :
    ℕ → String → Dict OutboxEvent → Result OutboxError (Dict OutboxEvent)
unfolding get_event
mark_event_as_processed now id events = do
  e ← get_event id events
  ok (Dict.put id (record e { processed_at = some now }) events)

unfoldable pub update_retry_value :
    ℕ → String → Dict OutboxEvent → Result OutboxError (Dict OutboxEvent)
unfolding get_event mark_event_as_processed
update_retry_value now id events = do
  e ← get_event id events
  let updated = Dict.put id (record e { retry = e.retry + 1 }) events
  if leb max_retries e.retry then mark_event_as_processed now id updated else ok updated

unfoldable pub map_to_zkp_verification_request : OutboxEvent → ToVerification
map_to_zkp_verification_request e = record { event_id = e.event_id; body = e.request_message }

-- What the worker publishes in one round.
unfoldable pub process_outbox_events : Dict OutboxEvent → List ToVerification
unfolding get_unprocessed_events map_to_zkp_verification_request
process_outbox_events events = map map_to_zkp_verification_request (get_unprocessed_events events)
