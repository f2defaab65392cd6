-- ===== src/Attestcoin/Proof/Inclusion.antt =====
-- What `AttestcoinService.verify` of attestcoin-service.ts knows of the proof, its inclusion and its
-- leaf when its last steps go on.
use veyronis.Prelude.{ℕ, String, Bool, true, Option, some, ◌≡◌, sym, subst, ==_iff, arith, ◌==◌}
use veyronis.Prelude.Flow.{next, or_fail-next}
use veyronis.Prelude.Flow.Run.{lift-eq-next, pure-eq-next, lift-next, require-eq-next, require-next}
use veyronis.Ethers.{Ethers}
use veyronis.Attestcoin.{AttestcoinProofRequest, VerifiedSourceTransaction}
use veyronis.Attestcoin.Commitment.{same_hex}
use veyronis.Attestcoin.Proof.{
  AttestcoinProof, get_proof_result, usable, AppConfig, Providers, BuilderResponse, Answered,
  ask_or-eq-next,
}
use veyronis.Attestcoin.Proof.Leaf.{Coder, DecodedAttestedTransaction, decode_attested_transaction}
use veyronis.Attestcoin.Proof.Service.{
  is_number, verified_transaction, usable_proof, fetch_proof, check_proof, prove_inclusion,
  read_leaf,
}
use veyronis.Attestcoin.Proof.Source.{is_number-true}

usable-data :
    (success : Bool) (d : Option AttestcoinProof) (error : Option String) (p : AttestcoinProof)
    → usable_proof (usable success d error) ≡ next p
    → d ≡ some p
unfolding usable_proof usable
usable-data success d error p h = ground arith

usable_proof-next :
    (r : BuilderResponse) (p : AttestcoinProof)
    → usable_proof (get_proof_result r) ≡ next p
    → r.response_data ≡ some p
unfolding usable_proof get_proof_result
usable_proof-next r p h = usable-data r.success r.response_data r.error p h

module _ {World : Type 0} (e : Ethers) (coder : Coder) (config : AppConfig)
    (providers : Providers World) (reference : AttestcoinProofRequest) where
  -- The proof builder's proof for the transaction, in the block of the source chain.
  pub record ProofFits (n : ℕ) (proof : AttestcoinProof) : Type 0 where
    pub response : BuilderResponse
    pub response_read : Answered (providers.builder_get_proof reference.transaction_hash) response
    pub returned : response.response_data ≡ some proof
    pub key : proof.chain_key ≡ reference.source_chain_key
    pub header : proof.header_number ≡ n
    pub hash : same_hex proof.tx_hash reference.transaction_hash ≡ true

  pub fetch_proof-eqs :
      (proof : AttestcoinProof) (w v : World)
      → fetch_proof e coder config providers reference w ≡ (next proof, v)
      → (r : BuilderResponse) × Answered (providers.builder_get_proof reference.transaction_hash) r
        × (r.response_data ≡ some proof)
  unfolding fetch_proof
  fetch_proof-eqs proof w v h =
      let (r, w1, read, h1) =
        ask_or-eq-next (providers.builder_get_proof reference.transaction_hash) _ w _ h in
      (r, read, usable_proof-next r proof (lift-next _ w1 h1))

  pub check_proof-eqs :
      (proof : AttestcoinProof) (n : ℕ) (w v : World)
      → check_proof e coder config providers reference proof n w ≡ (next tt, v)
      → (proof.chain_key ≡ reference.source_chain_key)
        × (proof.header_number ≡ n)
        × (same_hex proof.tx_hash reference.transaction_hash ≡ true)
  unfolding check_proof
  check_proof-eqs proof n w v h =
      let (keyed, h1) = require-eq-next (proof.chain_key == reference.source_chain_key) _ _ w h in
      let (headed, h2) = require-eq-next (proof.header_number == n) _ _ w h1 in
      (
        (==_iff proof.chain_key reference.source_chain_key).0 keyed,
        (==_iff proof.header_number n).0 headed,
        require-next _ _ w h2,
      )

  -- Creditcoin's block prover has verified the proof, and computes the index that it claims.
  pub record Included (proof : AttestcoinProof) (index : ℕ) : Type 0 where
    pub computed : Answered (providers.compute_transaction_index proof.merkle_proof) index
    pub claimed : index ≡ proof.tx_index
    pub verified :
        Answered
          (providers.verify_single proof.chain_key proof.header_number proof.tx_bytes
            proof.merkle_proof proof.continuity_proof)
          true

  pub prove_inclusion-Included :
      (proof : AttestcoinProof) (index : ℕ) (w v : World)
      → prove_inclusion e coder config providers reference proof w ≡ (next index, v)
      → Included proof index
  unfolding prove_inclusion
  prove_inclusion-Included proof index w v h =
      let (i, w1, computed, h1) =
        ask_or-eq-next (providers.compute_transaction_index proof.merkle_proof) _ w _ h in
      let (same, h2) = require-eq-next (i == proof.tx_index) _ _ w1 h1 in
      let (verified, w2, checked, h3) =
        ask_or-eq-next
          (providers.verify_single proof.chain_key proof.header_number proof.tx_bytes
            proof.merkle_proof proof.continuity_proof)
          _ w1 _ h2 in
      let (accepted, h4) = require-eq-next verified _ _ w2 h3 in
      subst (Included proof) (pure-eq-next i w2 h4).0 (record {
        computed = computed;
        claimed = (==_iff i proof.tx_index).0 same;
        verified = subst (Answered _) accepted checked;
      })

  -- The transaction is the one in the bytes of the proof.
  pub record LeafRead (proof : AttestcoinProof) (index : ℕ) (status : Option ℕ)
      (tx : VerifiedSourceTransaction) : Type 0 where
    pub decoded : DecodedAttestedTransaction
    pub read : decode_attested_transaction e coder proof.tx_bytes ≡ some decoded
    pub same : tx ≡ verified_transaction proof index decoded
    pub hash : same_hex decoded.hash reference.transaction_hash ≡ true
    pub status_same : status ≡ some decoded.receipt_status

  pub read_leaf-LeafRead :
      (proof : AttestcoinProof) (index : ℕ) (status : Option ℕ) (tx : VerifiedSourceTransaction)
      (w v : World)
      → read_leaf e coder config providers reference proof index status w ≡ (next tx, v)
      → LeafRead proof index status tx
  unfolding read_leaf
  read_leaf-LeafRead proof index status tx w v h =
      let (decoded, found, h1) = lift-eq-next _ _ w h in
      let (hashed, h2) =
        require-eq-next (same_hex decoded.hash reference.transaction_hash) _ _ w h1 in
      let (status_same, h3) = require-eq-next (is_number status decoded.receipt_status) _ _ w h2 in
      record {
        decoded = decoded;
        read = or_fail-next _ _ found;
        same = sym (pure-eq-next _ w h3).0;
        hash = hashed;
        status_same = is_number-true status decoded.receipt_status status_same;
      }
