-- ===== src/Tests.antt =====
-- Runs of the outbox, the identities and the results on small tables.
use digital_identity_system.Prelude.{
  ◌≤◌, String, ◌≡◌, refl, true, none, some, [], ◌∷◌, ◌==◌, if◌then◌else◌, ok, err,
}
use digital_identity_system.Dict
use digital_identity_system.Dict.{Dict}
use digital_identity_system.Outbox.{
  OutboxEvent, get_event, new_event, mark_event_as_processed, update_retry_value,
  process_outbox_events,
}
use digital_identity_system.Outbox.Laws.{start, added, retried_event, update_retry_value_open}
use digital_identity_system.Outbox.Rounds.{fresh_event, nothing_republished}
use digital_identity_system.Identity.{
  Identity, get_by_id, VerificationRequest, Outside, queue_verification, handle_queue_verification,
  no_schema, failed,
}
use digital_identity_system.Identity.Queue.{queue_verification_refuses}
use digital_identity_system.ProofResults.{
  Tables, ZkpProofResultDto, SchemaDraw, no_identity, saved, process_verification_result,
}
use digital_identity_system.ProofResults.Laws.{result_saved_once}

abbrev event : OutboxEvent
event = fresh_event "e1" "i1" "s1" "message"

abbrev events : Dict OutboxEvent
events = ("e1", event) ∷ []

stored : new_event "e1" "i1" "s1" "message" [] ≡ ok events
unfolding new_event Dict.has Dict.put
stored = refl

there : Dict.get "e1" events ≡ some event
unfolding Dict.get
there = refl

update_retry_value_open_example :
    (n : Dict OutboxEvent) × (update_retry_value 3 "e1" events ≡ ok n)
    × (Dict.get "e1" n
        ≡ (if "e1" == "e1" then some (retried_event 3 event) else Dict.get "e1" events))
update_retry_value_open_example = update_retry_value_open 3 "e1" "e1" events event there refl

nothing_republished_example : (event.retry ≤ 6) × (process_outbox_events events ≡ [])
nothing_republished_example =
    nothing_republished events "e1" event (added "e1" "i1" "s1" "message" [] events start stored)
      there

abbrev adam : Identity
adam = record { id = 1; identity_id = "u1"; identity_name = "Adam"; parent_id = none }

abbrev outside : Outside String
outside = record { parse_uuid = some; find_schema = λ _. true; serialize = λ s. s }

abbrev request : VerificationRequest String
request = record { identity_id = "i1"; schema_id = "s1"; fields = "a" ∷ "b" ∷ [] }

queue_verification_refuses_example :
    (queue_verification outside true "e2" request [] ≡ ([], err no_schema))
    × (handle_queue_verification outside true "e2" (some request) [] ≡ ([], failed 500))
queue_verification_refuses_example = queue_verification_refuses outside request true "e2" []

abbrev tables : Tables
tables = record {
  events = events;
  identities = record adam { identity_id = "i1" } ∷ [];
  schemas = [];
  proofs = [];
  failures = [];
}

abbrev dto : ZkpProofResultDto
dto = record { event_id = "e1"; signature = "sig"; account_id = "acc" }

abbrev draw : SchemaDraw
draw = record { serial = 1; uuid = "v1" }

abbrev after : Tables
after = (process_verification_result some 3 draw dto tables).0

done : process_verification_result some 3 draw dto tables ≡ (after, saved)
unfolding process_verification_result get_event Dict.get get_by_id mark_event_as_processed
done = refl

open_still : get_event "e1" events ≡ ok event
unfolding get_event Dict.get
open_still = refl

nameless : get_by_id "" tables.identities ≡ none
unfolding get_by_id
nameless = refl

result_saved_once_example : process_verification_result some 4 draw dto after ≡ (after, no_identity)
result_saved_once_example =
    result_saved_once some 3 4 draw draw dto tables after "e1" event refl open_still refl nameless
      done
