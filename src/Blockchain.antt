-- ===== src/Blockchain.antt =====
-- system/blockchain-client/src/workers: the consumers that put proofs and logs on Solana and tell
-- the API what became of an event. Solana's client, JSON, Borsh and the queues are parameters; so is
-- the client's own copy of the circuit (`prove_schema`). A publication is the value of the handler;
-- its error is ignored by the source.
pub mod Sent
pub mod Failures
pub mod Laws
mod Tests
use digital_identity_system.Prelude.{
  ℕ, ◌+◌, ◌-◌, ◌*◌, ◌/◌, ◌%◌, String, Bool, true, false, not, Option, none, some, List, [], ◌∷◌,
  ◌++◌, ◌==◌, ltb, eqb, is_empty, length, if◌then◌else◌, Result, ok, err, ◌>>=◌, ◌>>◌, map,
}
use digital_identity_system.Dict
use digital_identity_system.Dict.{Dict}
use digital_identity_system.Presentation.Types.{Bytes}
use digital_identity_system.Presentation.Verify.{◌⧺◌}
use digital_identity_system.ProofResults.{ZkpProofFailureDto, ZkpProofResultDto}

-- Reason codes of system/pkg/reason_codes.
abbrev pub err_unmarshal : String
err_unmarshal = "UnmarshalError"

abbrev pub err_verifier_resolution : String
err_verifier_resolution = "VerifierResolutionError"

abbrev pub err_proof_generation : String
err_proof_generation = "ProofGenerationError"

abbrev pub err_solana : String
err_solana = "SolanaBlockchainError"

pub record ZkpFieldDto : Type 0 where
  pub key : String
  pub value : String
  pub type : String
  pub verification_positive : Bool

-- `ZkpVerifiedPositiveDto`, and `ZkpVerifiedNegativeDto` with the same fields.
pub record ZkpVerifiedDto : Type 0 where
  pub event_id : String
  pub resolved_values : List ZkpFieldDto

-- What a worker publishes for one message.
pub data Published : Type 0 where
  failure : ZkpProofFailureDto → Published
  result : ZkpProofResultDto → Published

-- `zkpProofFailureDtoFactory`
pub record ZkpProofFailureFactory : Type 0 where
  pub event_id : String
  pub request_body : Bytes

unfoldable pub create_error_dto :
    ZkpProofFailureFactory → (error reason_code : String) → ZkpProofFailureDto
create_error_dto factory error reason_code = record {
  event_id = factory.event_id;
  request_body = factory.request_body;
  error = error;
  reason_code = reason_code;
}

unfoldable pub create_info_dto :
    ZkpProofFailureFactory → (reason_code : String) → ZkpProofFailureDto
create_info_dto factory reason_code = record {
  event_id = factory.event_id;
  request_body = factory.request_body;
  error = "";
  reason_code = reason_code;
}

-- `int(float64(n) * 1.5)` is exact for the lengths that a slice can have.
unfoldable pub required_size : ℕ → ℕ
required_size n = if ltb 10000 n then n * 3 / 2 else if ltb 1000 n then n + 2048 else n + 1024

unfoldable pub round_to_8 : ℕ → ℕ
round_to_8 n = if not (eqb (n % 8) 0) then n + (8 - n % 8) else n

unfoldable pub calculate_required_account_space : Bytes → ℕ
unfolding required_size round_to_8
calculate_required_account_space zkp_data =
    let total = round_to_8 (required_size (length zkp_data)) in
    if ltb total 2048 then 2048 else total

-- `solana.NewAccountMeta`, whose flags are, in this order, write and signer.
pub record AccountMeta : Type 0 where
  pub key : String
  pub is_writable : Bool
  pub is_signer : Bool

pub data Instruction : Type 0 where
  create_account : (lamports space : ℕ) (owner from new : String) → Instruction
  call : (program : String) (accounts : List AccountMeta) (zkp_data : Bytes) → Instruction

pub record Account : Type 0 where
  pub public_key : String
  pub private_key : String

pub record Keys : Type 0 where
  pub contract_public_key : String
  pub account_public_key : String
  pub account_private_key : String

-- The Solana client during one message. A simulation answers the error that the program ended with.
pub record Solana : Type 1 where
  pub Transaction : Type 0
  pub minimum_balance_for_rent : ℕ → Result String ℕ
  pub new_random_private_key : Result String Account
  pub latest_blockhash : Result String String
  pub new_transaction : List Instruction → (blockhash payer : String) → Result String Transaction
  pub sign : Transaction → (String → Option String) → Result String Transaction
  pub simulate : Transaction → Result String (Option String)
  pub send : Transaction → Result String String

pub record ZkpStorageData : Type 0 where
  pub signature : String
  pub account : String

-- The private key for a public key, among the payer's and the new account's.
unfoldable pub key_for : Keys → Account → String → Option String
key_for keys account pk =
    if pk == keys.account_public_key
    then some keys.account_private_key
    else if pk == account.public_key
    then some account.private_key
    else none

unfoldable pub payer_key : Keys → String → Option String
payer_key keys pk = if pk == keys.account_public_key then some keys.account_private_key else none

unfoldable pub check_simulation :
    (call_words words : String) → Result String (Option String) → Result String (Unit {0})
check_simulation call_words words (err e) = err (call_words ⧺ e)
check_simulation call_words words (ok none) = ok tt
check_simulation call_words words (ok (some e)) = err (words ⧺ e)

module _ (solana : Solana) (keys : Keys) where
  -- The two instructions: the new account, and the proof for the contract.
  unfoldable pub instructions_for : (rent : ℕ) → Account → Bytes → List Instruction
  unfolding calculate_required_account_space
  instructions_for rent account zkp_data =
      create_account rent (calculate_required_account_space zkp_data) keys.contract_public_key
        keys.account_public_key account.public_key
      ∷ call keys.contract_public_key
          (record { key = account.public_key; is_writable = false; is_signer = true }
            ∷ record { key = keys.account_public_key; is_writable = true; is_signer = true }
            ∷ [])
          zkp_data
      ∷ []

  unfoldable pub signed_transaction :
      List Instruction → (String → Option String) → Result String solana.Transaction
  signed_transaction instructions key_of = do
    blockhash ← solana.latest_blockhash
    tx ← solana.new_transaction instructions blockhash keys.account_public_key
    solana.sign tx key_of

  unfoldable pub simulate_and_send :
      (call_words words : String) → solana.Transaction → Result String String
  unfolding check_simulation
  simulate_and_send call_words words tx = do
    check_simulation call_words words (solana.simulate tx)
    solana.send tx

  unfoldable pub create_and_populate_zkp_account : Bytes → Result String ZkpStorageData
  unfolding calculate_required_account_space instructions_for signed_transaction simulate_and_send
      key_for
  create_and_populate_zkp_account zkp_data = do
    rent ← solana.minimum_balance_for_rent (calculate_required_account_space zkp_data)
    account ← solana.new_random_private_key
    tx ← signed_transaction (instructions_for rent account zkp_data) (key_for keys account)
    signature ← simulate_and_send "simulate call: " "simulate err: " tx
    ok (record { signature = signature; account = account.public_key })

-- encoding/json, borsh-go, gnark and the client's own copy of the circuit. `prove_schema` is
-- `CreateZKP` once it has a schema and values; the default values are decoded before it here.
pub record Proofs : Type 1 where
  pub Proof : Type 0
  pub Value : Type 0
  pub default_age_schema : String
  pub unmarshal_values : String → Result String (List (String × Value))
  pub prove_schema : (schema_json : String) → List (String × Value) → Result String Proof
  pub serialize_borsh : Proof → Result String Bytes
  pub unmarshal : Bytes → Result String ZkpVerifiedDto

abbrev pub default_assignment : String
default_assignment = "{\"birth_year\":1990,\"birth_month\":10,\"birth_day\":18}"

module _ (proofs : Proofs) where
  pub record ZkpCircuitBase : Type 0 where
    pub schema_json : String
    pub verified_values : List (String × proofs.Value)

  -- The loop over the values: a later value for a key replaces an earlier one.
  unfoldable pub value_map : List (String × proofs.Value) → Dict proofs.Value → Dict proofs.Value
  value_map [] m = m
  value_map ((key, value) ∷ values) m = value_map values (Dict.put key value m)

  unfoldable pub load_defaults :
      Result String (List (String × proofs.Value)) → Result String (List (String × proofs.Value))
  load_defaults (err e) = err ("load default assignment: " ⧺ e)
  load_defaults (ok values) = ok values

  unfoldable pub values_or_default :
      List (String × proofs.Value) → Result String (List (String × proofs.Value))
  unfolding load_defaults
  values_or_default values =
      if is_empty values
      then load_defaults (proofs.unmarshal_values default_assignment)
      else ok values

  unfoldable pub create_zkp : ZkpCircuitBase → Result String proofs.Proof
  unfolding value_map values_or_default
  create_zkp base = do
    let schema_json = if base.schema_json == "" then proofs.default_age_schema else base.schema_json
    values ← values_or_default (value_map base.verified_values [])
    proofs.prove_schema schema_json values

  module _ (solana : Solana) (keys : Keys) where
    unfoldable pub publish_zkp_to_solana : proofs.Proof → Result String ZkpStorageData
    unfolding create_and_populate_zkp_account
    publish_zkp_to_solana proof = do
      zkp_data ← proofs.serialize_borsh proof
      create_and_populate_zkp_account solana keys zkp_data

    unfoldable pub publish_outcome :
        ZkpProofFailureFactory → Result String ZkpStorageData → Published
    unfolding create_error_dto
    publish_outcome factory (err e) = failure (create_error_dto factory e err_solana)
    publish_outcome factory (ok stored) = result (record {
      event_id = factory.event_id;
      signature = stored.signature;
      account_id = stored.account;
    })

    unfoldable pub publish_proof : ZkpProofFailureFactory → Result String proofs.Proof → Published
    unfolding create_error_dto publish_zkp_to_solana publish_outcome
    publish_proof factory (err e) = failure (create_error_dto factory e err_proof_generation)
    publish_proof factory (ok proof) = publish_outcome factory (publish_zkp_to_solana proof)

    unfoldable pub answer_positive : Bytes → Result String ZkpVerifiedDto → Published
    unfolding create_error_dto create_zkp publish_proof
    answer_positive body (err e) =
        failure (create_error_dto (record { event_id = ""; request_body = body }) e err_unmarshal)
    answer_positive body (ok message) =
        publish_proof (record { event_id = message.event_id; request_body = body })
          (create_zkp (record { schema_json = ""; verified_values = [] }))

    -- The handler of `VerifiedPositiveWorker`.
    unfoldable pub handle_positive : Bytes → Published
    unfolding answer_positive
    handle_positive body = answer_positive body (proofs.unmarshal body)

  unfoldable pub answer_negative : Bytes → Result String ZkpVerifiedDto → Published
  unfolding create_error_dto create_info_dto
  answer_negative body (err e) =
      failure (create_error_dto (record { event_id = ""; request_body = body }) e err_unmarshal)
  answer_negative body (ok message) = failure (
      create_info_dto (record { event_id = message.event_id; request_body = body })
        err_verifier_resolution)

  -- The handler of `VerifiedNegativeWorker`.
  unfoldable pub handle_negative : Bytes → Published
  unfolding answer_negative
  handle_negative body = answer_negative body (proofs.unmarshal body)

module _ (solana : Solana) (keys : Keys) where
  -- The bytes of `LOG:`.
  abbrev pub log_prefix : Bytes
  log_prefix = 76 ∷ 79 ∷ 71 ∷ 58 ∷ []

  unfoldable pub worded : String → {A : Type 0} → Result String A → Result String A
  worded words (err e) = err (words ⧺ e)
  worded words (ok a) = ok a

  -- `storeLogToSolana`, on the serialized log message; a success returns the signature, which the
  -- source drops.
  unfoldable pub store_log_to_solana : Result String Bytes → Result String String
  unfolding worded check_simulation payer_key
  store_log_to_solana serialized = do
    log_data ← worded "failed to serialize log message: " serialized
    let accounts =
        record { key = keys.account_public_key; is_writable = true; is_signer = true } ∷ []
    let instruction = call keys.contract_public_key accounts (log_prefix ++ log_data)
    blockhash ← worded "failed to get latest blockhash: " solana.latest_blockhash
    tx ←
        worded "failed to create transaction: "
          (solana.new_transaction (instruction ∷ []) blockhash keys.account_public_key)
    signed ← worded "failed to sign transaction: " (solana.sign tx (payer_key keys))
    check_simulation "simulate call failed: " "simulation failed: " (solana.simulate signed)
    worded "failed to send transaction: " (solana.send signed)
