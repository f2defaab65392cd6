-- ===== src/Attestcoin/Proof/Service.antt =====
-- `AttestcoinService.verify` of backend/src/attestcoin/attestcoin-service.ts. Each step below is a
-- stretch of its body between two early returns, in order; `verify` composes them under the outer
-- `try`. Block heights and indices are natural numbers, which `Number` reads exactly while they
-- are below 2^53.
use veyronis.Prelude.{ℕ, Bool, false, Option, none, some, find, leb, ◌&&◌, if◌then◌else◌, ◌==◌}
use veyronis.Prelude.Flow
use veyronis.Prelude.Flow.{Flow, next, failed, threw, or_fail}
use veyronis.Prelude.Flow.Run.{Run, pure, lift, require, ◌>>=◌, ◌>>◌}
use veyronis.Ethers.{Ethers}
use veyronis.Attestcoin.{
  Failure, failure, AttestcoinProofRequest, VerifiedSourceTransaction, source_transaction_not_found,
  source_transaction_not_mined, source_block_not_attested, proof_builder_unavailable,
  proof_not_found, invalid_proof, creditcoin_verification_failed, unsupported_source_chain,
  missing_transaction_context, transaction_hash_mismatch, policy_mismatch, provider_failure,
  configuration_missing,
}
use veyronis.Attestcoin.Proof.{
  SourceTransaction, SourceReceipt, SourceBlock, SupportedChain, LatestAttested, AttestcoinProof,
  AttestcoinProofResult, succeeded, unsuccessful, get_proof_result, AppConfig, Asking, Providers,
  ask, ask_or, proof_provider_status_code,
}
use veyronis.Attestcoin.Proof.Leaf.{Coder, DecodedAttestedTransaction, decode_attested_transaction}
use veyronis.Attestcoin.Commitment.{same_hex}

abbrev pub is_number : Option ℕ → ℕ → Bool
is_number none n = false
is_number (some m) n = m == n

-- The block of the transaction, of its receipt, and of the block that was read.
abbrev pub transaction_block : Option SourceTransaction → Flow Failure ℕ
transaction_block none =
    failed (failure source_transaction_not_found "The source transaction was not found on Sepolia")
transaction_block (some tx) =
    or_fail tx.block_number
      (failure source_transaction_not_mined "The source transaction has not been mined")

abbrev missing_receipt : Failure
missing_receipt =
    failure source_transaction_not_mined "The source transaction receipt is not available yet"

abbrev pub receipt_block : Option SourceReceipt → Flow Failure ℕ
receipt_block none = failed missing_receipt
receipt_block (some r) = or_fail r.block_number missing_receipt

abbrev pub receipt_status : Option SourceReceipt → Option ℕ
receipt_status none = none
receipt_status (some r) = r.status

abbrev pub block_number : Option SourceBlock → Option ℕ
block_number none = none
block_number (some b) = b.number

abbrev pub is_attested : LatestAttested → ℕ → Bool
is_attested l n = l.exists && leb n l.height

abbrev pub chain_id_is : Option SupportedChain → ℕ → Flow Failure (Unit {0})
chain_id_is none id =
    failed (failure unsupported_source_chain "Creditcoin does not support the source chain key")
chain_id_is (some c) id = Flow.require (c.chain_id == id) (
    failure unsupported_source_chain "The live Creditcoin chain-key mapping does not match Sepolia")

-- What a response without a proof is reported as.
unfoldable pub refused : Option ℕ → Failure
refused none = failure invalid_proof "The Proof Builder did not return a usable proof"
refused (some code) =
    if code == 404
    then failure proof_not_found "The Proof Builder has no proof for the source transaction"
    else if leb 500 code
    then failure proof_builder_unavailable "The Proof Builder service is unavailable"
    else failure invalid_proof "The Proof Builder did not return a usable proof"

unfoldable pub usable_proof : AttestcoinProofResult → Flow Failure AttestcoinProof
unfolding refused
usable_proof (succeeded p) = next p
usable_proof (unsuccessful error) = failed (refused (proof_provider_status_code error))

-- A source receipt that succeeded, with its block and the source chain's id.
pub record MinedSource : Type 0 where
  pub network : ℕ
  pub block : ℕ
  pub status : Option ℕ

abbrev pub not_attested : Failure
not_attested =
    failure source_block_not_attested "The source block is not attested on Creditcoin yet"

-- The transaction that a verified leaf is returned as.
abbrev pub verified_transaction :
    AttestcoinProof → ℕ → DecodedAttestedTransaction → VerifiedSourceTransaction
verified_transaction proof index tx = record {
  source_chain_key = proof.chain_key;
  source_transaction_hash = tx.hash;
  source_block_number = proof.header_number;
  transaction_index = index;
  from = tx.from;
  to = tx.to;
  chain_id = tx.chain_id;
  value = tx.value;
  calldata = tx.calldata;
  receipt_status = tx.receipt_status;
  logs = tx.logs;
}

module _ {World : Type 0} (e : Ethers) (coder : Coder) (config : AppConfig)
    (providers : Providers World) where
  abbrev pub Proving : Type 0 → Type 0
  Proving A = Run World Failure A

  module _ (reference : AttestcoinProofRequest) where
    unfoldable pub read_source : Proving MinedSource
    read_source = do
      network ← ask providers.source_chain_id
      tx ← ask (providers.get_transaction reference.transaction_hash)
      mined ← lift (transaction_block tx)
      receipt ← ask (providers.get_transaction_receipt reference.transaction_hash)
      n ← lift (receipt_block receipt)
      require (mined == n)
          (failure invalid_proof "The source transaction and receipt identify different blocks")
      block ← ask (providers.get_block n)
      require (is_number (block_number block) n)
          (failure source_transaction_not_mined "The source block could not be read from Sepolia")
      require (is_number (receipt_status receipt) 1)
          (failure policy_mismatch "The source transaction receipt failed")
      pure (record { network = network; block = n; status = receipt_status receipt })

    unfoldable pub check_creditcoin : ℕ → Proving (Unit {0})
    check_creditcoin network = do
      id ← ask providers.creditcoin_chain_id
      require (id == 102031)
          (failure configuration_missing "The Creditcoin RPC is connected to another chain")
      chains ← ask providers.get_supported_chains
      lift (chain_id_is (find (λ c. c.chain_key == reference.source_chain_key) chains) network)

    -- The `try` whose every failure is the same.
    unfoldable pub wait_attested : ℕ → Proving (Unit {0})
    wait_attested n = do
      ask_or
          (providers.wait_until_height_attested reference.source_chain_key n
            config.attestation_poll_interval_ms config.attestation_wait_timeout_ms 0)
          not_attested
      attested ← ask_or (providers.get_latest_attested reference.source_chain_key) not_attested
      require (is_attested attested n) not_attested

    unfoldable pub check_attested : ℕ → LatestAttested → Proving (Unit {0})
    unfolding wait_attested
    check_attested n latest = if is_attested latest n then pure tt else wait_attested n

    unfoldable pub await_attestation : ℕ → Proving (Unit {0})
    unfolding check_attested
    await_attestation n = do
      latest ← ask (providers.get_latest_attested reference.source_chain_key)
      check_attested n latest

    unfoldable pub await_builder :
        Option (ℕ → ℕ → ℕ → ℕ → ℕ → Asking World (Unit {0})) → ℕ → Proving (Unit {0})
    await_builder none n = pure tt
    await_builder (some wait) n =
        ask_or
          (wait reference.source_chain_key n config.attestation_poll_interval_ms
            config.proof_builder_wait_timeout_ms 0)
          (failure proof_builder_unavailable
            "The Proof Builder has not made the attested source block available yet")

    unfoldable pub fetch_proof : Proving AttestcoinProof
    unfolding usable_proof
    fetch_proof = do
      response ←
          ask_or (providers.builder_get_proof reference.transaction_hash)
            (failure proof_builder_unavailable "The Proof Builder service could not be reached")
      lift (usable_proof (get_proof_result response))

    unfoldable pub check_proof : AttestcoinProof → ℕ → Proving (Unit {0})
    check_proof proof n = do
      require (proof.chain_key == reference.source_chain_key)
          (failure unsupported_source_chain "The proof was generated for another source chain")
      require (proof.header_number == n)
          (failure invalid_proof "The proof was generated for another source block")
      require (same_hex proof.tx_hash reference.transaction_hash)
          (failure transaction_hash_mismatch "The proof metadata contains another transaction hash")

    -- The native proof of inclusion, with the index that the Merkle proof computes to.
    unfoldable pub prove_inclusion : AttestcoinProof → Proving ℕ
    prove_inclusion proof = do
      index ←
          ask_or (providers.compute_transaction_index proof.merkle_proof)
            (failure invalid_proof "The Merkle proof transaction index could not be computed")
      require (index == proof.tx_index) (
          failure invalid_proof
            "The Merkle proof transaction index does not match the proof metadata")
      verified ←
          ask_or
            (providers.verify_single proof.chain_key proof.header_number proof.tx_bytes
              proof.merkle_proof proof.continuity_proof)
            (failure creditcoin_verification_failed "The native Creditcoin BlockProver call failed")
      require verified (
          failure creditcoin_verification_failed
            "Creditcoin rejected the transaction inclusion proof")
      pure index

    unfoldable pub read_leaf : AttestcoinProof → ℕ → Option ℕ → Proving VerifiedSourceTransaction
    read_leaf proof index status = do
      tx ← lift (
          or_fail (decode_attested_transaction e coder proof.tx_bytes)
            (failure missing_transaction_context "The verified transaction context is malformed"))
      require (same_hex tx.hash reference.transaction_hash) (
          failure transaction_hash_mismatch
            "The verified transaction bytes hash to another transaction")
      require (is_number status tx.receipt_status)
          (failure invalid_proof "The proof receipt status does not match the source receipt")
      pure (verified_transaction proof index tx)

    -- The body of the outer `try`.
    unfoldable pub prove_source : Proving VerifiedSourceTransaction
    unfolding read_source check_creditcoin await_attestation await_builder fetch_proof check_proof
        prove_inclusion read_leaf
    prove_source = do
      source ← read_source
      check_creditcoin source.network
      await_attestation source.block
      await_builder providers.builder_wait source.block
      proof ← fetch_proof
      check_proof proof source.block
      index ← prove_inclusion proof
      read_leaf proof index source.status

    abbrev pub reported : {A : Type 0} → Flow Failure A → Flow Failure A
    reported (next a) = next a
    reported (failed f) = failed f
    reported threw =
        failed (failure provider_failure "A source-chain or Creditcoin provider call failed")

    unfoldable pub try_to : {A : Type 0} → Proving A → Proving A
    try_to m w = let (r, v) = m w in (reported r, v)

    unfoldable pub verify : Proving VerifiedSourceTransaction
    unfolding prove_source try_to
    verify = do
      require (reference.source_chain_key == config.sepolia_chain_key)
          (failure unsupported_source_chain "The requested source chain is not configured")
      try_to prove_source
