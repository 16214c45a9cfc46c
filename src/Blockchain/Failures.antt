-- ===== src/Blockchain/Failures.antt =====
-- How storing a proof on the blockchain fails
-- (system/blockchain-client/src/workers/verified_positive_worker.go).
use digital_identity_system.Prelude.{
  ℕ, String, ◌≡◌, refl, inl, inr, Option, none, some, List, Result, ok, err, ◌>>=◌, >>=-eq-err,
}
use digital_identity_system.Presentation.Types.{Bytes}
use digital_identity_system.Presentation.Verify.{◌⧺◌}
use digital_identity_system.Blockchain.{
  calculate_required_account_space, Account, Instruction, Keys, Solana, key_for, check_simulation,
  instructions_for, signed_transaction, simulate_and_send, create_and_populate_zkp_account,
}

module _ (solana : Solana) (keys : Keys) where
  -- A transaction over the instructions could not be made, with the error.
  pub data Unsigned (instructions : List Instruction) (key_of : String → Option String) (e : String)
      : Type 0 where
    no_blockhash : solana.latest_blockhash ≡ err e → Unsigned instructions key_of e
    not_built :
        (blockhash : String)
        → solana.latest_blockhash ≡ ok blockhash
        → solana.new_transaction instructions blockhash keys.account_public_key ≡ err e
        → Unsigned instructions key_of e
    not_signed :
        (blockhash : String) (tx : solana.Transaction)
        → solana.latest_blockhash ≡ ok blockhash
        → solana.new_transaction instructions blockhash keys.account_public_key ≡ ok tx
        → solana.sign tx key_of ≡ err e
        → Unsigned instructions key_of e

  -- A transaction could not be sent, with the error that is told.
  pub data Unsent (tx : solana.Transaction) (e : String) : Type 0 where
    not_simulated :
        (why : String) → solana.simulate tx ≡ err why → e ≡ "simulate call: " ⧺ why → Unsent tx e
    program_failed :
        (why : String)
        → solana.simulate tx ≡ ok (some why)
        → e ≡ "simulate err: " ⧺ why
        → Unsent tx e
    not_sent : solana.simulate tx ≡ ok none → solana.send tx ≡ err e → Unsent tx e

  -- The first stage that failed, after the stages before it succeeded.
  pub data Unstored (zkp_data : Bytes) (e : String) : Type 0 where
    no_rent :
        solana.minimum_balance_for_rent (calculate_required_account_space zkp_data) ≡ err e
        → Unstored zkp_data e
    no_account :
        (rent : ℕ)
        → solana.minimum_balance_for_rent (calculate_required_account_space zkp_data) ≡ ok rent
        → solana.new_random_private_key ≡ err e
        → Unstored zkp_data e
    no_transaction :
        (rent : ℕ) (account : Account)
        → solana.minimum_balance_for_rent (calculate_required_account_space zkp_data) ≡ ok rent
        → solana.new_random_private_key ≡ ok account
        → Unsigned (instructions_for solana keys rent account zkp_data) (key_for keys account) e
        → Unstored zkp_data e
    no_signature :
        (rent : ℕ) (account : Account) (tx : solana.Transaction)
        → solana.minimum_balance_for_rent (calculate_required_account_space zkp_data) ≡ ok rent
        → solana.new_random_private_key ≡ ok account
        → signed_transaction solana keys
            (instructions_for solana keys rent account zkp_data)
            (key_for keys account)
          ≡ ok tx
        → Unsent tx e
        → Unstored zkp_data e

  signed_transaction-Unsigned :
      (instructions : List Instruction) (key_of : String → Option String) (e : String)
      → signed_transaction solana keys instructions key_of ≡ err e
      → Unsigned instructions key_of e
  unfolding signed_transaction
  signed_transaction-Unsigned instructions key_of e h =
      elim (>>=-eq-err solana.latest_blockhash _ h) [
        | inl bad ↦ no_blockhash bad
        | inr (blockhash, latest, h1) ↦
            elim (>>=-eq-err (solana.new_transaction instructions blockhash keys.account_public_key)
              _ h1) [
                | inl bad ↦ not_built blockhash latest bad
                | inr (tx, built, bad) ↦ not_signed blockhash tx latest built bad
              ]
      ]

  simulate_and_send-Unsent :
      (tx : solana.Transaction) (e : String) (answer : Result String (Option String))
      → solana.simulate tx ≡ answer
      → (check_simulation "simulate call: " "simulate err: " answer >>= λ _. solana.send tx) ≡ err e
      → Unsent tx e
  unfolding check_simulation
  simulate_and_send-Unsent tx e (err why) called h = not_simulated why called (cc h)
  simulate_and_send-Unsent tx e (ok (some why)) called h = program_failed why called (cc h)
  simulate_and_send-Unsent tx e (ok none) called h = not_sent called h

  pub create_and_populate_zkp_account-Unstored :
      (zkp_data : Bytes) (e : String)
      → create_and_populate_zkp_account solana keys zkp_data ≡ err e
      → Unstored zkp_data e
  unfolding create_and_populate_zkp_account simulate_and_send
  create_and_populate_zkp_account-Unstored zkp_data e h =
      let space = calculate_required_account_space zkp_data in
      elim (>>=-eq-err (solana.minimum_balance_for_rent space) _ h) [
        | inl bad ↦ no_rent bad
        | inr (rent, exempt, h1) ↦ elim (>>=-eq-err solana.new_random_private_key _ h1) [
          | inl bad ↦ no_account rent exempt bad
          | inr (account, drawn, h2) ↦
              elim (>>=-eq-err
                (signed_transaction solana keys (instructions_for solana keys rent account zkp_data)
                  (key_for keys account))
                _ h2) [
                  | inl bad ↦
                      no_transaction rent account exempt drawn
                        (signed_transaction-Unsigned _ _ e bad)
                  | inr (tx, made, h3) ↦
                      elim (>>=-eq-err
                        (simulate_and_send solana keys "simulate call: " "simulate err: " tx) _
                        h3) [
                          | inl bad ↦
                              no_signature rent account tx exempt drawn made
                                (simulate_and_send-Unsent tx e (solana.simulate tx) refl bad)
                          | inr (signature, sent, impossible) ↦ absurd (cc impossible)
                        ]
                ]
        ]
      ]
