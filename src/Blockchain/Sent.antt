-- ===== src/Blockchain/Sent.antt =====
-- How a proof is stored on the blockchain
-- (system/blockchain-client/src/workers/verified_positive_worker.go).
use digital_identity_system.Prelude.{
  ℕ, ◌+◌, ◌%◌, ◌≤◌, String, ◌≡◌, refl, sym, ap, ◌∙◌, Option, none, some, List, length, arith,
  Result, ok, err, ◌>>=◌, >>=-eq-ok,
}
use digital_identity_system.Presentation.Types.{Bytes}
use digital_identity_system.Blockchain.{
  required_size, round_to_8, calculate_required_account_space, Account, Instruction, Keys, Solana,
  ZkpStorageData, key_for, check_simulation, instructions_for, signed_transaction,
  simulate_and_send, create_and_populate_zkp_account,
}

round_to_8_fits : (n : ℕ) → (round_to_8 n % 8 ≡ 0) × (n ≤ round_to_8 n)
unfolding round_to_8
round_to_8_fits n = ground arith

required_size_fits : (n : ℕ) → n + 1024 ≤ required_size n
unfolding required_size
required_size_fits n = ground arith

-- The space is a multiple of 8, at least 2048, and leaves 1024 bytes beside the proof.
abbrev pub Fits : Bytes → ℕ → Type 0
Fits zkp_data space = (space % 8 ≡ 0) × (2048 ≤ space) × (length zkp_data + 1024 ≤ space)

calculate_required_account_space-Fits :
    (zkp_data : Bytes) → Fits zkp_data (calculate_required_account_space zkp_data)
unfolding calculate_required_account_space
calculate_required_account_space-Fits zkp_data =
    let n = required_size (length zkp_data) in
    let (even, above) = round_to_8_fits n in
    let enough = required_size_fits (length zkp_data) in ground arith

module _ (solana : Solana) (keys : Keys) where
  -- A transaction that creates an account with room for the proof, pays its rent and hands the
  -- proof to the contract; it was signed, simulated without an error, and sent.
  pub record Sent (zkp_data : Bytes) (stored : ZkpStorageData) : Type 0 where
    pub rent : ℕ
    pub account : Account
    pub blockhash : String
    pub unsigned : solana.Transaction
    pub transaction : solana.Transaction
    pub room : Fits zkp_data (calculate_required_account_space zkp_data)
    pub exempt :
        solana.minimum_balance_for_rent (calculate_required_account_space zkp_data) ≡ ok rent
    pub built :
        solana.new_transaction
          (instructions_for solana keys rent account zkp_data)
          blockhash
          keys.account_public_key
        ≡ ok unsigned
    pub signed : solana.sign unsigned (key_for keys account) ≡ ok transaction
    pub simulated : solana.simulate transaction ≡ ok none
    pub sent : solana.send transaction ≡ ok stored.signature
    pub named : stored.account ≡ account.public_key

  check_simulation-ok :
      (call_words words : String) (answer : Result String (Option String))
      → check_simulation call_words words answer ≡ ok tt
      → answer ≡ ok none
  unfolding check_simulation
  check_simulation-ok call_words words (err e) h = absurd (cc h)
  check_simulation-ok call_words words (ok none) h = refl
  check_simulation-ok call_words words (ok (some e)) h = absurd (cc h)

  simulate_and_send-ok :
      (call_words words : String) (tx : solana.Transaction) {signature : String}
      → simulate_and_send solana keys call_words words tx ≡ ok signature
      → (solana.simulate tx ≡ ok none) × (solana.send tx ≡ ok signature)
  unfolding simulate_and_send
  simulate_and_send-ok call_words words tx h =
      let (u, checked, sent) =
        >>=-eq-ok (check_simulation call_words words (solana.simulate tx)) (λ _. solana.send tx)
          h in
      (check_simulation-ok call_words words (solana.simulate tx) checked, sent)

  signed_transaction-ok :
      (instructions : List Instruction) (key_of : String → Option String)
      {transaction : solana.Transaction}
      → signed_transaction solana keys instructions key_of ≡ ok transaction
      → (blockhash : String) × (unsigned : solana.Transaction) × (solana.new_transaction
            instructions blockhash keys.account_public_key
          ≡ ok unsigned)
        × (solana.sign unsigned key_of ≡ ok transaction)
  unfolding signed_transaction
  signed_transaction-ok instructions key_of h =
      let (blockhash, latest, rest) =
        >>=-eq-ok solana.latest_blockhash
          (λ hash. solana.new_transaction instructions hash keys.account_public_key >>= λ tx.
            solana.sign tx key_of)
          h in
      let (unsigned, built, signed) =
        >>=-eq-ok (solana.new_transaction instructions blockhash keys.account_public_key)
          (λ tx. solana.sign tx key_of) rest in
      (blockhash, unsigned, built, signed)

  pub create_and_populate_zkp_account-Sent :
      (zkp_data : Bytes) (stored : ZkpStorageData)
      → create_and_populate_zkp_account solana keys zkp_data ≡ ok stored
      → Sent zkp_data stored
  unfolding create_and_populate_zkp_account
  create_and_populate_zkp_account-Sent zkp_data stored h =
      let finish : Account → String → Result String ZkpStorageData =
        λ a signature. ok (record { signature = signature; account = a.public_key }) in
      let send : Account → solana.Transaction → Result String ZkpStorageData =
        λ a tx. simulate_and_send solana keys "simulate call: " "simulate err: " tx >>= finish a in
      let sign : ℕ → Account → Result String solana.Transaction = λ rent a.
        signed_transaction solana keys (instructions_for solana keys rent a zkp_data)
          (key_for keys a) in
      let (rent, exempt, h1) =
        >>=-eq-ok (solana.minimum_balance_for_rent (calculate_required_account_space zkp_data))
          (λ rent. solana.new_random_private_key >>= λ a. sign rent a >>= send a) h in
      let (account, drawn, h2) =
        >>=-eq-ok solana.new_random_private_key (λ a. sign rent a >>= send a) h1 in
      let (transaction, made, h3) = >>=-eq-ok (sign rent account) (send account) h2 in
      let (signature, posted, h4) =
        >>=-eq-ok (simulate_and_send solana keys "simulate call: " "simulate err: " transaction)
          (finish account) h3 in
      let (blockhash, unsigned, built, signed) = signed_transaction-ok _ _ made in
      let (simulated, sent) = simulate_and_send-ok _ _ transaction posted in
      let e : stored ≡ record { signature = signature; account = account.public_key } = cc h4 in
      record {
        rent = rent;
        account = account;
        blockhash = blockhash;
        unsigned = unsigned;
        transaction = transaction;
        room = calculate_required_account_space-Fits zkp_data;
        exempt = exempt;
        built = built;
        signed = signed;
        simulated = simulated;
        sent = sent ∙ ap (λ (x : ZkpStorageData). ok x.signature) (sym e);
        named = ap (λ (x : ZkpStorageData). x.account) e;
      }
