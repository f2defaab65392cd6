-- ===== src/Attestcoin/Proof/Proved.antt =====
-- What stands behind a transaction that `AttestcoinService.verify` of attestcoin-service.ts returns.
use text.Mathlib.TextEquality.{eq_iff}
use veyronis.Prelude.Text.{to_lower_case}
use veyronis.Prelude.{
  String, some, ℕ, true, ◌≡◌, refl, sym, subst, ==_iff, ◌==◌, some-injective, ◌∙◌, ◌≢◌,
}
use veyronis.Prelude.Flow.{Flow, next, failed, threw}
use veyronis.Prelude.Flow.Run.{bind-eq-next, require-eq-next, require_reports}
use veyronis.Ethers.{Ethers}
use veyronis.Attestcoin.{AttestcoinProofRequest, VerifiedSourceTransaction, Failure}
use veyronis.Attestcoin.Commitment.{same_hex}
use veyronis.Attestcoin.Proof.{AttestcoinProof, AppConfig, Providers}
use veyronis.Attestcoin.Proof.Leaf.{Coder, DecodedAttestedTransaction, decode_attested_transaction}
use veyronis.Attestcoin.Proof.Leaf.Fits.{LeafFits, decode_attested_transaction-LeafFits}
use veyronis.Attestcoin.Proof.Service.{
  MinedSource, read_source, check_creditcoin, await_attestation, await_builder, fetch_proof,
  check_proof, prove_inclusion, prove_source, reported, try_to, verify,
}
use veyronis.Attestcoin.Proof.Source.{
  SourceFits, ChainFits, AttestedUpTo, read_source-SourceFits, check_creditcoin-ChainFits,
  await_attestation-AttestedUpTo,
}
use veyronis.Attestcoin.Proof.Inclusion.{
  ProofFits, Included, LeafRead, fetch_proof-eqs, check_proof-eqs, prove_inclusion-Included,
  read_leaf-LeafRead,
}

same_hex-eq : (a b : String) → same_hex a b ≡ true → to_lower_case a ≡ to_lower_case b
unfolding same_hex
same_hex-eq a b h = (eq_iff (to_lower_case a) (to_lower_case b)).0 h

module _ {World : Type 0} (e : Ethers) (coder : Coder) (config : AppConfig)
    (providers : Providers World) (reference : AttestcoinProofRequest) where
  -- Everything that is known of a returned transaction.
  pub record IsProved (tx : VerifiedSourceTransaction) : Type 0 where
    pub configured : reference.source_chain_key ≡ config.sepolia_chain_key
    pub source : MinedSource
    pub source_fits : SourceFits e coder config providers reference source
    pub chain_fits : ChainFits e coder config providers reference source.network
    pub attested : AttestedUpTo e coder config providers reference source.block
    pub proof : AttestcoinProof
    pub proof_fits : ProofFits e coder config providers reference source.block proof
    pub included : Included e coder config providers reference proof tx.transaction_index
    pub leaf : DecodedAttestedTransaction
    pub leaf_fits : LeafFits e coder proof.tx_bytes leaf
    pub leaf_read : decode_attested_transaction e coder proof.tx_bytes ≡ some leaf
    -- The result has the fields of the leaf.
    pub leaf_hash : tx.source_transaction_hash ≡ leaf.hash
    pub from : tx.from ≡ leaf.from
    pub to : tx.to ≡ leaf.to
    pub chain_id : tx.chain_id ≡ leaf.chain_id
    pub value : tx.value ≡ leaf.value
    pub calldata : tx.calldata ≡ leaf.calldata
    pub logs : tx.logs ≡ leaf.logs
    pub status : tx.receipt_status ≡ leaf.receipt_status
    pub key : tx.source_chain_key ≡ reference.source_chain_key
    pub hash : to_lower_case tx.source_transaction_hash ≡ to_lower_case reference.transaction_hash
    pub block : tx.source_block_number ≡ source.block
    pub succeeded : tx.receipt_status ≡ 1

  LeafRead-IsProved :
      (tx : VerifiedSourceTransaction) (source : MinedSource) (proof : AttestcoinProof) (index : ℕ)
      → reference.source_chain_key ≡ config.sepolia_chain_key
      → SourceFits e coder config providers reference source
      → ChainFits e coder config providers reference source.network
      → AttestedUpTo e coder config providers reference source.block
      → ProofFits e coder config providers reference source.block proof
      → Included e coder config providers reference proof index
      → LeafRead e coder config providers reference proof index source.status tx
      → IsProved tx
  LeafRead-IsProved tx source proof index configured fits chain attested proof_fits included leaf =
      subst IsProved (sym leaf.same) (record {
        configured = configured;
        source = source;
        source_fits = fits;
        chain_fits = chain;
        attested = attested;
        proof = proof;
        proof_fits = proof_fits;
        included = included;
        leaf = leaf.decoded;
        leaf_fits =
            decode_attested_transaction-LeafFits e coder proof.tx_bytes leaf.decoded leaf.read;
        leaf_read = leaf.read;
        leaf_hash = refl;
        from = refl;
        to = refl;
        chain_id = refl;
        value = refl;
        calldata = refl;
        logs = refl;
        status = refl;
        key = proof_fits.key;
        hash = same_hex-eq leaf.decoded.hash reference.transaction_hash leaf.hash;
        block = proof_fits.header;
        succeeded = some-injective (sym leaf.status_same ∙ fits.status);
      })

  prove_source-IsProved :
      (w v : World) (tx : VerifiedSourceTransaction)
      → reference.source_chain_key ≡ config.sepolia_chain_key
      → prove_source e coder config providers reference w ≡ (next tx, v)
      → IsProved tx
  unfolding prove_source
  prove_source-IsProved w v tx configured h =
      let (source, w1, sourced, h1) =
        bind-eq-next (read_source e coder config providers reference) _ w h in
      let (_, w2, chained, h2) =
        bind-eq-next (check_creditcoin e coder config providers reference source.network) _ w1 h1 in
      let (_, w3, attested, h3) =
        bind-eq-next (await_attestation e coder config providers reference source.block) _ w2 h2 in
      let (_, w4, waited, h4) =
        bind-eq-next
          (await_builder e coder config providers reference providers.builder_wait source.block) _
          w3 h3 in
      let (proof, w5, fetched, h5) =
        bind-eq-next (fetch_proof e coder config providers reference) _ w4 h4 in
      let (_, w6, checked, h6) =
        bind-eq-next (check_proof e coder config providers reference proof source.block) _ w5 h5 in
      let (index, w7, included, h7) =
        bind-eq-next (prove_inclusion e coder config providers reference proof) _ w6 h6 in
      let (response, read, returned) =
        fetch_proof-eqs e coder config providers reference proof w4 w5 fetched in
      let (keyed, headed, hashed) =
        check_proof-eqs e coder config providers reference proof source.block w5 w6 checked in
      LeafRead-IsProved tx source proof index configured
        (read_source-SourceFits e coder config providers reference w w1 source sourced)
        (check_creditcoin-ChainFits e coder config providers reference source.network w1 w2 chained)
        (await_attestation-AttestedUpTo e coder config providers reference source.block w2 w3
          attested)
        (record {
          response = response;
          response_read = read;
          returned = returned;
          key = keyed;
          header = headed;
          hash = hashed;
        })
        (prove_inclusion-Included e coder config providers reference proof index w6 w7 included)
        (read_leaf-LeafRead e coder config providers reference proof index source.status tx w7 v h7)

  reported-next :
      (r : Flow Failure VerifiedSourceTransaction × World) (tx : VerifiedSourceTransaction)
      (v : World)
      → ◌≡◌ {A = Flow Failure VerifiedSourceTransaction × World}
          (reported e coder config providers reference r.0, r.1)
          (next tx, v)
      → r ≡ (next tx, v)
  reported-next (next a, u) tx v h = h
  reported-next (failed f, u) tx v h = cc
  reported-next (threw, u) tx v h = cc

  reported_reports :
      (r : Flow Failure VerifiedSourceTransaction)
      → reported e coder config providers reference r ≢ threw
  reported_reports (next a) h = cc
  reported_reports (failed f) h = cc
  reported_reports threw h = cc

  -- A transaction that the service verifies is on the configured chain: the source provider has
  -- it and a successful receipt in one block, Creditcoin lists the chain under this key with the
  -- source network's id, has attested it up to that block, and its block prover has accepted the
  -- proof that the builder returned for that block; the result has the block, the index that the
  -- Merkle proof computes to, and the fields of the leaf that is decoded from the proved bytes,
  -- whose hash is the requested one in any case of its letters.
  pub verify-IsProved :
      (w v : World) (tx : VerifiedSourceTransaction)
      → verify e coder config providers reference w ≡ (next tx, v)
      → IsProved tx
  unfolding verify try_to
  verify-IsProved w v tx h =
      let (configured, h1) =
        require-eq-next (reference.source_chain_key == config.sepolia_chain_key) _ _ w h in
      prove_source-IsProved w v tx
        ((==_iff reference.source_chain_key config.sepolia_chain_key).0 configured)
        (reported-next _ tx v h1)

  -- Whatever the providers answer or reject, the service reports a result or a failure, and throws
  -- nothing.
  pub verify-reports : (w : World) → (verify e coder config providers reference w).0 ≢ threw
  unfolding verify try_to
  verify-reports w h =
      require_reports (reference.source_chain_key == config.sepolia_chain_key) _ _ w
        (reported_reports _) h
