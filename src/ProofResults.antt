-- ===== src/ProofResults.antt =====
-- system/api/src/zkp: what a result and a failure of the blockchain client change. The tables answer
-- every query. `parse` is the parser of UUIDs, in canonical form; `uuid.MustParse` panics where it
-- fails.
pub mod Laws
use digital_identity_system.Prelude.{
  ℕ, String, Bool, true, false, Option, none, some, List, [], ◌∷◌, ◌++◌, ◌==◌, if◌then◌else◌,
  Result, ok, err,
}
use digital_identity_system.Dict
use digital_identity_system.Dict.{Dict}
use digital_identity_system.Outbox.{
  OutboxEvent, OutboxError, get_event, mark_event_as_processed, update_retry_value,
}
use digital_identity_system.Identity.{Identity, get_by_id}

pub record VerifiedSchema : Type 0 where
  pub id : ℕ
  pub schema_id : String
  pub super_identity_id : ℕ
  pub schema : String

pub record ZeroKnowledgeProof : Type 0 where
  pub digital_identity_schema_id : ℕ
  pub super_identity_id : ℕ
  pub proof_reference : String
  pub account_id : String

pub record ZkpProofFailure : Type 0 where
  pub event_id : String
  pub request_body : List ℕ
  pub error : String
  pub reason_code : String

pub record Tables : Type 0 where
  pub events : Dict OutboxEvent
  pub identities : List Identity
  pub schemas : List VerifiedSchema
  pub proofs : List ZeroKnowledgeProof
  pub failures : List ZkpProofFailure

pub record ZkpProofResultDto : Type 0 where
  pub event_id : String
  pub signature : String
  pub account_id : String

-- `ZkpProofFailureDto`; its fields are those of the table.
abbrev pub ZkpProofFailureDto : Type 0
ZkpProofFailureDto = ZkpProofFailure

pub data ProofOutcome : Type 0 where
  panics no_identity saved : ProofOutcome
  outbox_failed : OutboxError → ProofOutcome

unfoldable pub find_schema : String → List VerifiedSchema → Option VerifiedSchema
find_schema text [] = none
find_schema text (s ∷ rest) =
    let found = find_schema text rest in if s.schema == text then some s else found

-- What the database and the UUID generator draw for a new row of schemas.
pub record SchemaDraw : Type 0 where
  pub serial : ℕ
  pub uuid : String

unfoldable pub find_or_create_verified_schema :
    SchemaDraw
    → (text : String) (super_identity_id : ℕ) → List VerifiedSchema
    → List VerifiedSchema × VerifiedSchema
unfolding find_schema
find_or_create_verified_schema draw text super_identity_id schemas =
    let fresh : VerifiedSchema = record {
      id = draw.serial;
      schema_id = draw.uuid;
      super_identity_id = super_identity_id;
      schema = text;
    } in
    elim (find_schema text schemas) [
      | some s ↦ (schemas, s)
      | none ↦ (schemas ++ fresh ∷ [], fresh)
    ]

-- The last call of `ProcessVerificationResult`.
unfoldable pub finish_event : (String → Option String) → ℕ → String → Tables → Tables × ProofOutcome
finish_event parse now id t = elim (parse id) [
  | none ↦ (t, panics)
  | some uuid ↦ elim (mark_event_as_processed now uuid t.events) [
    | ok events ↦ (record t { events = events }, saved)
    | err e ↦ (t, outbox_failed e)
  ]
]

-- The part after the event: the identity, the schema, the proof, and the end of the event.
unfoldable pub save_result :
    (String → Option String)
    → ℕ
    → SchemaDraw
    → ZkpProofResultDto
    → (identity_id schema_id event_id : String) → Tables
    → Tables × ProofOutcome
unfolding find_or_create_verified_schema finish_event
save_result parse now draw resp identity_id schema_id event_id t =
    elim (get_by_id identity_id t.identities) [
      | none ↦ (t, no_identity)
      | some identity ↦
          let found = find_or_create_verified_schema draw schema_id identity.id t.schemas in
          let proof : ZeroKnowledgeProof = record {
            digital_identity_schema_id = found.1.id;
            super_identity_id = identity.id;
            proof_reference = resp.signature;
            account_id = resp.account_id;
          } in
          finish_event parse now event_id
            (record t { schemas = found.0; proofs = t.proofs ++ proof ∷ [] })
    ]

-- The error of `GetEvent` is overwritten, so an event that is not found is the zero event, whose
-- texts are empty.
unfoldable pub process_verification_result :
    (String → Option String) → ℕ → SchemaDraw → ZkpProofResultDto → Tables → Tables × ProofOutcome
unfolding save_result
process_verification_result parse now draw resp t = elim (parse resp.event_id) [
  | none ↦ (t, panics)
  | some uuid ↦ elim (get_event uuid t.events) [
    | ok event ↦ save_result parse now draw resp event.identity_id event.schema_id event.event_id t
    | err _ ↦ save_result parse now draw resp "" "" "" t
  ]
]

unfoldable pub save_failed_and_update_outbox :
    (String → Option String) → ℕ → ZkpProofFailureDto → Tables → Tables × ProofOutcome
save_failed_and_update_outbox parse now failure t =
    let stored = record t { failures = t.failures ++ failure ∷ [] } in
    elim (parse failure.event_id) [
      | none ↦ (stored, panics)
      | some uuid ↦ elim (update_retry_value now uuid t.events) [
        | ok events ↦ (record stored { events = events }, saved)
        | err e ↦ (stored, outbox_failed e)
      ]
    ]
