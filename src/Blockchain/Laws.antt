-- ===== src/Blockchain/Laws.antt =====
-- What the workers of system/blockchain-client publish, and what they have stored by then.
use digital_identity_system.Prelude.{
  String, ◌≡◌, ◌⊎◌, refl, sym, ap, inl, inr, [], Result, ok, err, >>=-eq-ok, >>=-eq-err,
}
use digital_identity_system.Presentation.Types.{Bytes}
use digital_identity_system.ProofResults.{ZkpProofFailureDto, ZkpProofResultDto}
use digital_identity_system.Blockchain.{
  ZkpVerifiedDto, Published, failure, result, create_error_dto, err_unmarshal, err_proof_generation,
  err_solana, Keys, Solana, ZkpStorageData, create_and_populate_zkp_account, Proofs, create_zkp,
  ZkpCircuitBase, publish_zkp_to_solana, publish_outcome, publish_proof, answer_positive,
  handle_positive,
}
use digital_identity_system.Blockchain.Failures.{Unstored, create_and_populate_zkp_account-Unstored}
use digital_identity_system.Blockchain.Sent.{Sent, create_and_populate_zkp_account-Sent}

module _ (proofs : Proofs) (solana : Solana) (keys : Keys) where
  abbrev pub default_base : ZkpCircuitBase proofs
  default_base = record { schema_json = ""; verified_values = [] }

  -- The event of a message, empty for a body that does not decode.
  abbrev pub event_of : Result String ZkpVerifiedDto → String
  event_of (err e) = ""
  event_of (ok message) = message.event_id

  -- The result names the event of the message, and a proof of the default base was sent.
  pub record IsStored (body : Bytes) (r : ZkpProofResultDto) : Type 0 where
    pub message : ZkpVerifiedDto
    pub decoded : proofs.unmarshal body ≡ ok message
    pub same_event : r.event_id ≡ message.event_id
    pub proof : proofs.Proof
    pub proven : create_zkp proofs default_base ≡ ok proof
    pub zkp_data : Bytes
    pub serialized : proofs.serialize_borsh proof ≡ ok zkp_data
    pub sent :
        Sent solana keys zkp_data (record { signature = r.signature; account = r.account_id })

  -- The proof could not be stored: its serialization failed, or a stage of the transaction did.
  abbrev pub IsUnstored : proofs.Proof → String → Type 0
  IsUnstored proof e =
      (proofs.serialize_borsh proof ≡ err e)
      ⊎ ((zkp_data : Bytes) × (proofs.serialize_borsh proof ≡ ok zkp_data)
          × Unstored solana keys zkp_data e)

  -- The failure names the event and carries the body, with the error and the reason code of the
  -- first stage that failed.
  pub record IsRefused (body : Bytes) (f : ZkpProofFailureDto) : Type 0 where
    pub same_event : f.event_id ≡ event_of (proofs.unmarshal body)
    pub same_body : f.request_body ≡ body
    pub reason :
        ((proofs.unmarshal body ≡ err f.error) × (f.reason_code ≡ err_unmarshal))
        ⊎ (((create_zkp proofs default_base ≡ err f.error) × (f.reason_code ≡ err_proof_generation))
            ⊎ ((proof : proofs.Proof) × (create_zkp proofs default_base ≡ ok proof)
                × IsUnstored proof f.error
                × (f.reason_code ≡ err_solana)))

  publish_zkp_to_solana-Sent :
      (proof : proofs.Proof) (stored : ZkpStorageData)
      → publish_zkp_to_solana proofs solana keys proof ≡ ok stored
      → (zkp_data : Bytes) × (proofs.serialize_borsh proof ≡ ok zkp_data)
        × Sent solana keys zkp_data stored
  unfolding publish_zkp_to_solana
  publish_zkp_to_solana-Sent proof stored h =
      let (zkp_data, serialized, rest) =
        >>=-eq-ok (proofs.serialize_borsh proof) (create_and_populate_zkp_account solana keys) h in
      (zkp_data, serialized, create_and_populate_zkp_account-Sent solana keys zkp_data stored rest)

  publish_zkp_to_solana-IsUnstored :
      (proof : proofs.Proof) (e : String)
      → publish_zkp_to_solana proofs solana keys proof ≡ err e
      → IsUnstored proof e
  unfolding publish_zkp_to_solana
  publish_zkp_to_solana-IsUnstored proof e h =
      elim (>>=-eq-err (proofs.serialize_borsh proof) _ h) [
        | inl bad ↦ inl bad
        | inr (zkp_data, serialized, bad) ↦ inr (
          zkp_data,
          serialized,
          create_and_populate_zkp_account-Unstored solana keys zkp_data e bad,
        )
      ]

  abbrev Answered : Bytes → Published → Type 0
  Answered body p =
      ((f : ZkpProofFailureDto) × (p ≡ failure f) × IsRefused body f)
      ⊎ ((r : ZkpProofResultDto) × (p ≡ result r) × IsStored body r)

  module _ (body : Bytes) where
    publish_outcome-Answered :
        (message : ZkpVerifiedDto) (proof : proofs.Proof) (outcome : Result String ZkpStorageData)
        → proofs.unmarshal body ≡ ok message
        → create_zkp proofs default_base ≡ ok proof
        → publish_zkp_to_solana proofs solana keys proof ≡ outcome
        → Answered body (
            publish_outcome proofs solana keys
              (record { event_id = message.event_id; request_body = body })
              outcome)
    unfolding publish_outcome create_error_dto
    publish_outcome-Answered message proof (err e) decoded proven published = inl (
      _,
      refl,
      record {
        same_event = sym (ap event_of decoded);
        same_body = refl;
        reason =
            inr (inr (proof, proven, publish_zkp_to_solana-IsUnstored proof e published, refl));
      },
    )
    publish_outcome-Answered message proof (ok stored) decoded proven published =
        let (zkp_data, serialized, sent) = publish_zkp_to_solana-Sent proof stored published in
        inr (
          _,
          refl,
          record {
            message = message;
            decoded = decoded;
            same_event = refl;
            proof = proof;
            proven = proven;
            zkp_data = zkp_data;
            serialized = serialized;
            sent = sent;
          },
        )

    publish_proof-Answered :
        (message : ZkpVerifiedDto) (proven : Result String proofs.Proof)
        → proofs.unmarshal body ≡ ok message
        → create_zkp proofs default_base ≡ proven
        → Answered body (
            publish_proof proofs solana keys
              (record { event_id = message.event_id; request_body = body })
              proven)
    unfolding publish_proof create_error_dto
    publish_proof-Answered message (err e) decoded e1 = inl (
      _,
      refl,
      record {
        same_event = sym (ap event_of decoded);
        same_body = refl;
        reason = inr (inl (e1, refl));
      },
    )
    publish_proof-Answered message (ok proof) decoded e1 =
        publish_outcome-Answered message proof (publish_zkp_to_solana proofs solana keys proof)
          decoded e1 refl

    answer_positive-Answered :
        (decoded : Result String ZkpVerifiedDto)
        → proofs.unmarshal body ≡ decoded
        → Answered body (answer_positive proofs solana keys body decoded)
    unfolding answer_positive create_error_dto
    answer_positive-Answered (err e) e1 = inl (
      _,
      refl,
      record { same_event = sym (ap event_of e1); same_body = refl; reason = inl (e1, refl) },
    )
    answer_positive-Answered (ok message) e1 =
        publish_proof-Answered message (create_zkp proofs default_base) e1 refl

  -- What `VerifiedPositiveWorker` publishes for a message. A failure names the event of the message
  -- (none, if the body does not decode) and carries its body and the error and reason code of the
  -- first stage that failed: decoding, proving, or storing, which is serialization, the rent, the
  -- new account, the blockhash, the transaction, its signing, its simulation, or its sending. A
  -- result names the event, and then a transaction was signed, simulated without an error and sent
  -- that pays the rent of a new account and hands the contract the proof of the default schema over
  -- the default values, where the space of the account is a multiple of 8, at least 2048, and at
  -- least 1024 bytes more than the proof.
  pub handle_positive_answers :
      (body : Bytes)
      → ((f : ZkpProofFailureDto) × (handle_positive proofs solana keys body ≡ failure f)
          × IsRefused body f)
        ⊎ ((r : ZkpProofResultDto) × (handle_positive proofs solana keys body ≡ result r)
            × IsStored body r)
  unfolding handle_positive
  handle_positive_answers body = answer_positive-Answered body (proofs.unmarshal body) refl
