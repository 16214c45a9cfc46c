-- ===== src/Blockchain/Tests.antt =====
-- Runs of the workers of system/blockchain-client on sample data.
use digital_identity_system.Prelude.{ℕ, String, ◌≡◌, ◌⊎◌, refl, none, [], ◌∷◌, Result, ok, err}
use digital_identity_system.Presentation.Types.{Bytes}
use digital_identity_system.ProofResults.{ZkpProofFailureDto, ZkpProofResultDto}
use digital_identity_system.Blockchain.{
  ZkpVerifiedDto, failure, result, Keys, Solana, Proofs, handle_positive, handle_negative,
  calculate_required_account_space, err_unmarshal, err_verifier_resolution,
}
use digital_identity_system.Blockchain.Laws.{IsRefused, IsStored, handle_positive_answers}

abbrev keys : Keys
keys = record {
  contract_public_key = "program";
  account_public_key = "payer";
  account_private_key = "secret";
}

-- A transaction is its blockhash.
abbrev chain : Solana
chain = record {
  Transaction = String;
  minimum_balance_for_rent = λ space. ok space;
  new_random_private_key = ok (record { public_key = "new"; private_key = "secret2" });
  latest_blockhash = ok "hash";
  new_transaction = λ _ hash _. ok hash;
  sign = λ tx _. ok tx;
  simulate = λ _. ok none;
  send = λ _. ok "signature";
}

abbrev decode : Bytes → Result String ZkpVerifiedDto
decode [] = err "unexpected end of JSON input"
decode _ = ok (record { event_id = "e1"; resolved_values = [] })

abbrev proofs : Proofs
proofs = record {
  Proof = ℕ;
  Value = ℕ;
  default_age_schema = "{}";
  unmarshal_values = λ _. ok [];
  prove_schema = λ _ _. ok 7;
  serialize_borsh = λ p. ok (p ∷ []);
  unmarshal = decode;
}

-- The smallest account, an account that is rounded, and a body that does not decode.
smallest : calculate_required_account_space (1 ∷ []) ≡ 2048
unfolding calculate_required_account_space
smallest = refl

stored :
    handle_positive proofs chain keys (1 ∷ [])
    ≡ result (record { event_id = "e1"; signature = "signature"; account_id = "new" })
unfolding handle_positive
stored = refl

undecoded :
    handle_positive proofs chain keys []
    ≡ failure (record {
      event_id = "";
      request_body = [];
      error = "unexpected end of JSON input";
      reason_code = err_unmarshal;
    })
unfolding handle_positive
undecoded = refl

negative :
    handle_negative proofs (1 ∷ [])
    ≡ failure (record {
      event_id = "e1";
      request_body = 1 ∷ [];
      error = "";
      reason_code = err_verifier_resolution;
    })
unfolding handle_negative
negative = refl

handle_positive_answers_example :
    ((f : ZkpProofFailureDto) × (handle_positive proofs chain keys (1 ∷ []) ≡ failure f)
      × IsRefused proofs chain keys (1 ∷ []) f)
    ⊎ ((r : ZkpProofResultDto) × (handle_positive proofs chain keys (1 ∷ []) ≡ result r)
        × IsStored proofs chain keys (1 ∷ []) r)
handle_positive_answers_example = handle_positive_answers proofs chain keys (1 ∷ [])
