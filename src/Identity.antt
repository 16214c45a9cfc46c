-- ===== src/Identity.antt =====
-- system/api/src/identity: identities, and the queueing of a verification. A table that was made
-- (system/api/src/database/migrations.go) answers every query. A new identity takes the serial
-- number and the UUID that the caller draws.
pub mod Laws
pub mod Queue
use Prim.Native.String
use digital_identity_system.Prelude.{
  ℕ, String, Bool, true, false, Option, none, some, List, [], ◌∷◌, ◌++◌, ◌==◌, ◌||◌, ◌&&◌,
  if◌then◌else◌, map, Result, ok, err, ◌>>=◌, ◌>>◌, guard, or_err,
}
use digital_identity_system.Prelude.Int.{ℤ}
use digital_identity_system.Dict.{Dict}
use digital_identity_system.Outbox.{OutboxEvent, OutboxError, ToVerification, new_event}

pub record Identity : Type 0 where
  pub id : ℕ
  pub identity_id : String
  pub identity_name : String
  pub parent_id : Option ℤ

unfoldable pub get_by_id : String → List Identity → Option Identity
get_by_id id [] = none
get_by_id id (i ∷ rest) =
    let found = get_by_id id rest in if i.identity_id == id then some i else found

pub data IdentityError : Type 0 where
  no_parent : ℤ → IdentityError
  not_created : IdentityError

-- `Create`; the index on `identity_id` is unique.
unfoldable pub create : Identity → List Identity → Result IdentityError (List Identity)
create i table = elim (get_by_id i.identity_id table) [
  | some _ ↦ err not_created
  | none ↦ ok (table ++ i ∷ [])
]

-- The check that the parent exists.
unfoldable pub check_parent :
    (ℤ → String) → Option ℤ → List Identity → Result IdentityError (Unit {0})
check_parent print none table = ok tt
check_parent print (some parent) table = elim (get_by_id (print parent) table) [
  | none ↦ err (no_parent parent)
  | some _ ↦ ok tt
]

-- `print` is `fmt.Sprint` of an int.
unfoldable pub create_identity :
    (ℤ → String)
    → (serial : ℕ) (drawn name : String) → Option ℤ
    → List Identity
    → Result IdentityError (List Identity × Identity)
unfolding check_parent create
create_identity print serial drawn name parent table =
    let identity : Identity = record {
      id = serial;
      identity_id = drawn;
      identity_name = name;
      parent_id = parent;
    } in
    do check_parent print parent table; table' ← create identity table; ok (table', identity)

pub data Answer : Type 0 where
  failed : ℕ → Answer
  panics : Answer
  created : Identity → Answer
  found : (identity_id identity_name : String) → Answer
  queued : Answer

-- The handler's part after the service has answered. `Parent` is nil in every identity that the
-- service returns, so reading its `IdentityId` panics.
unfoldable pub answer_created :
    List Identity → Result IdentityError (List Identity × Identity) → List Identity × Answer
answer_created table (err _) = (table, failed 500)
answer_created table (ok (table', identity)) = elim identity.parent_id [
  | none ↦ (table', created identity)
  | some _ ↦ (table', panics)
]

unfoldable pub handle_create_identity :
    (ℤ → String)
    → (serial : ℕ) (drawn : String) → Option (String × Option ℤ)
    → List Identity
    → List Identity × Answer
unfolding create_identity answer_created
handle_create_identity print serial drawn none table = (table, failed 400)
handle_create_identity print serial drawn (some (name, parent)) table =
    if name == ""
    then (table, failed 400)
    else answer_created table (create_identity print serial drawn name parent table)

unfoldable pub handle_get_identity : String → List Identity → Answer
unfolding get_by_id
handle_get_identity id table = elim (get_by_id id table) [
  | none ↦ failed 404
  | some i ↦ found i.identity_id i.identity_name
]

-- `strings.Join`
unfoldable pub join : String → List String → String
join sep [] = ""
join sep (s ∷ []) = s
join sep (s ∷ rest) = String.◌++◌ s (String.◌++◌ sep (join sep rest))

pub record VerificationRequest (Field : Type 0) : Type 0 where
  pub identity_id : String
  pub schema_id : String
  pub fields : List Field

pub data QueueError : Type 0 where
  bad_uuid no_schema not_valid not_published : QueueError
  outbox : OutboxError → QueueError

-- `validateSchema`
unfoldable pub validate_schema : {Field : Type 0} → VerificationRequest Field → Bool
validate_schema request = true

abbrev pub lift_outbox {ℓ} : {A : Type ℓ} → Result OutboxError A → Result QueueError A
lift_outbox (ok a) = ok a
lift_outbox (err e) = err (outbox e)

-- The models that `AutoMigrate` makes tables for, by the names of their types.
abbrev pub migrated : List String
migrated =
    "Identity" ∷ "VerifiedSchema" ∷ "ZeroKnowledgeProof" ∷ "ZkpProofFailure" ∷ "OutboxEvent"
    ∷ "LogAuditEntry" ∷ []

unfoldable pub has_table : String → List String → Bool
has_table name [] = false
has_table name (own ∷ rest) = let later = has_table name rest in own == name || later

-- `GetSchemaById`. gorm answers an error for a model whose table was not made; `find` is its answer
-- for one that was.
unfoldable pub get_schema_by_id : (find : String → Bool) → String → Result QueueError (Unit {0})
unfolding has_table
get_schema_by_id find id = guard (has_table "Schema" migrated && find id) no_schema

-- What the queueing takes from outside: the parser of UUIDs, in canonical form, the query for a
-- schema, and the JSON of a field.
pub record Outside (Field : Type 0) : Type 0 where
  pub parse_uuid : String → Option String
  pub find_schema : String → Bool
  pub serialize : Field → String

module _ {Field : Type 0} (outside : Outside Field) where
  unfoldable pub message_of : VerificationRequest Field → String
  unfolding join
  message_of request = join ", " (map outside.serialize request.fields)

  -- The part before the event is stored: the two ids.
  unfoldable pub queue_ids : VerificationRequest Field → Result QueueError (String × String)
  unfolding validate_schema get_schema_by_id
  queue_ids request = do
    schema_id ← or_err (outside.parse_uuid request.schema_id) bad_uuid
    identity_id ← or_err (outside.parse_uuid request.schema_id) bad_uuid
    get_schema_by_id outside.find_schema schema_id
    guard (validate_schema request) not_valid
    ok (identity_id, schema_id)

  -- Publishing after the event is stored; `reached` says whether the queue accepts the message.
  unfoldable pub publish_stored :
      Bool
      → ToVerification
      → Dict OutboxEvent
      → Result OutboxError (Dict OutboxEvent)
      → Dict OutboxEvent × Result QueueError ToVerification
  publish_stored reached message events (err e) = (events, err (outbox e))
  publish_stored reached message events (ok events') =
      (events', if reached then ok message else err not_published)

  unfoldable pub queue_verification :
      (reached : Bool) (drawn : String)
      → VerificationRequest Field
      → Dict OutboxEvent
      → Dict OutboxEvent × Result QueueError ToVerification
  unfolding queue_ids publish_stored message_of
  queue_verification reached drawn request events = elim (queue_ids request) [
    | err e ↦ (events, err e)
    | ok (identity_id, schema_id) ↦
        publish_stored reached (record { event_id = drawn; body = message_of request }) events
          (new_event drawn identity_id schema_id (message_of request) events)
  ]

  -- The endpoint; a body that cannot be bound is `none`.
  unfoldable pub handle_queue_verification :
      (reached : Bool) (drawn : String)
      → Option (VerificationRequest Field)
      → Dict OutboxEvent
      → Dict OutboxEvent × Answer
  unfolding queue_verification
  handle_queue_verification reached drawn none events = (events, failed 400)
  handle_queue_verification reached drawn (some request) events =
      let after = queue_verification reached drawn request events in
      (after.0, elim after.1 [ err _ ↦ failed 500 | ok _ ↦ queued ])
