-- ===== src/Attestcoin/Proof/Source.antt =====
-- What `AttestcoinService.verify` of attestcoin-service.ts knows of the source chain and of the
-- chain's attestation when its first steps go on.
use veyronis.Prelude.{
  ℕ, true, Option, none, some, leb, ◌≡◌, refl, subst, ap, inl, inr, ◌≤◌, ==_iff, leb→le,
  and-eq-true, Bool-cases, arith, List, ◌==◌, find-eq-some,
}
use veyronis.Prelude.Flow.{next, or_fail-next}
use mathlib.Core.List.{Memᴰ}
use veyronis.Prelude.Flow.Run.{lift-eq-next, pure-eq-next, lift-next, require-eq-next, require-next}
use veyronis.Ethers.{Ethers}
use veyronis.Attestcoin.{AttestcoinProofRequest}
use veyronis.Attestcoin.Proof.{
  SourceTransaction, SourceReceipt, SupportedChain, LatestAttested, AppConfig, Providers, Answered,
  ask-eq-next, ask_or-eq-next,
}
use veyronis.Attestcoin.Proof.Leaf.{Coder}
use veyronis.Attestcoin.Proof.Service.{
  is_number, transaction_block, receipt_block, receipt_status, block_number, is_attested,
  not_attested, chain_id_is, MinedSource, read_source, check_creditcoin, wait_attested,
  check_attested, await_attestation,
}

pub is_number-true : (o : Option ℕ) (n : ℕ) → is_number o n ≡ true → o ≡ some n
is_number-true none n h = cc
is_number-true (some m) n h = ap some ((==_iff m n).0 h)

transaction_block-next :
    (tx : Option SourceTransaction) (n : ℕ)
    → transaction_block tx ≡ next n
    → (t : SourceTransaction) × (tx ≡ some t) × (t.block_number ≡ some n)
transaction_block-next none n h = cc
transaction_block-next (some t) n h = (t, refl, or_fail-next t.block_number _ h)

receipt_block-next :
    (receipt : Option SourceReceipt) (n : ℕ)
    → receipt_block receipt ≡ next n
    → (r : SourceReceipt) × (receipt ≡ some r) × (r.block_number ≡ some n)
receipt_block-next none n h = cc
receipt_block-next (some r) n h = (r, refl, or_fail-next r.block_number _ h)

chain_id_is-next :
    (c : Option SupportedChain) (id : ℕ)
    → chain_id_is c id ≡ next tt
    → (chain : SupportedChain) × (c ≡ some chain) × (chain.chain_id ≡ id)
chain_id_is-next none id h = cc
chain_id_is-next (some c) id h = (c, refl, ground arith)

module _ {World : Type 0} (e : Ethers) (coder : Coder) (config : AppConfig)
    (providers : Providers World) (reference : AttestcoinProofRequest) where
  -- The source chain has the transaction and its receipt in the same block, and the receipt
  -- succeeded.
  pub record SourceFits (source : MinedSource) : Type 0 where
    pub network : Answered providers.source_chain_id source.network
    pub transaction : SourceTransaction
    pub transaction_read :
        Answered (providers.get_transaction reference.transaction_hash) (some transaction)
    pub mined : transaction.block_number ≡ some source.block
    pub receipt : SourceReceipt
    pub receipt_read :
        Answered (providers.get_transaction_receipt reference.transaction_hash) (some receipt)
    pub in_block : receipt.block_number ≡ some source.block
    pub succeeded : receipt.status ≡ some 1
    pub status : source.status ≡ some 1

  pub read_source-SourceFits :
      (w v : World) (source : MinedSource)
      → read_source e coder config providers reference w ≡ (next source, v)
      → SourceFits source
  unfolding read_source
  read_source-SourceFits w v source h =
      let (network, w1, network_read, h1) = ask-eq-next providers.source_chain_id _ w h in
      let (tx, w2, tx_read, h2) =
        ask-eq-next (providers.get_transaction reference.transaction_hash) _ w1 h1 in
      let (mined, mined_at, h3) = lift-eq-next (transaction_block tx) _ w2 h2 in
      let (receipt, w3, receipt_read, h4) =
        ask-eq-next (providers.get_transaction_receipt reference.transaction_hash) _ w2 h3 in
      let (n, in_block, h5) = lift-eq-next (receipt_block receipt) _ w3 h4 in
      let (same_block, h6) = require-eq-next (mined == n) _ _ w3 h5 in
      let (block, w4, block_read, h7) = ask-eq-next (providers.get_block n) _ w3 h6 in
      let (numbered, h8) = require-eq-next (is_number (block_number block) n) _ _ w4 h7 in
      let (ok, h9) = require-eq-next (is_number (receipt_status receipt) 1) _ _ w4 h8 in
      let (t, found, t_mined) = transaction_block-next tx mined mined_at in
      let (r, r_found, r_mined) = receipt_block-next receipt n in_block in
      let status = is_number-true (receipt_status receipt) 1 ok in
      subst SourceFits (pure-eq-next _ w4 h9).0 (record {
        network = network_read;
        transaction = t;
        transaction_read = subst (Answered _) found tx_read;
        mined = subst (λ k. t.block_number ≡ some k) ((==_iff mined n).0 same_block) t_mined;
        receipt = r;
        receipt_read = subst (Answered _) r_found receipt_read;
        in_block = r_mined;
        succeeded = subst (λ o. receipt_status o ≡ some 1) r_found status;
        status = status;
      })

  -- Creditcoin's test network answers, and knows the source chain by this key.
  pub record ChainFits (network : ℕ) : Type 0 where
    pub creditcoin : Answered providers.creditcoin_chain_id 102031
    pub chains : List SupportedChain
    pub chains_read : Answered providers.get_supported_chains chains
    pub chain : SupportedChain
    pub listed : Memᴰ chain chains
    pub key : chain.chain_key ≡ reference.source_chain_key
    pub id : chain.chain_id ≡ network

  pub check_creditcoin-ChainFits :
      (network : ℕ) (w v : World)
      → check_creditcoin e coder config providers reference network w ≡ (next tt, v)
      → ChainFits network
  unfolding check_creditcoin
  check_creditcoin-ChainFits network w v h =
      let (id, w1, id_read, h1) = ask-eq-next providers.creditcoin_chain_id _ w h in
      let (right, h2) = require-eq-next (id == 102031) _ _ w1 h1 in
      let (chains, w2, chains_read, h3) = ask-eq-next providers.get_supported_chains _ w1 h2 in
      let (chain, found, chain_id) = chain_id_is-next _ network (lift-next _ w2 h3) in
      let (listed, keyed) = find-eq-some _ chains found in
      record {
        creditcoin = subst (Answered _) ((==_iff id 102031).0 right) id_read;
        chains = chains;
        chains_read = chains_read;
        chain = chain;
        listed = listed;
        key = (==_iff chain.chain_key reference.source_chain_key).0 keyed;
        id = chain_id;
      }

  -- Creditcoin has attested the source chain up to the block.
  pub record AttestedUpTo (n : ℕ) : Type 0 where
    pub latest : LatestAttested
    pub latest_read : Answered (providers.get_latest_attested reference.source_chain_key) latest
    pub exists : latest.exists ≡ true
    pub high : n ≤ latest.height

  attested_at :
      (n : ℕ) (latest : LatestAttested)
      → Answered (providers.get_latest_attested reference.source_chain_key) latest
      → is_attested latest n ≡ true
      → AttestedUpTo n
  attested_at n latest read h =
      let (exists, high) = and-eq-true latest.exists (leb n latest.height) h in
      record {
        latest = latest;
        latest_read = read;
        exists = exists;
        high = leb→le n latest.height high;
      }

  wait_attested-AttestedUpTo :
      (n : ℕ) (w v : World)
      → wait_attested e coder config providers reference n w ≡ (next tt, v)
      → AttestedUpTo n
  unfolding wait_attested
  wait_attested-AttestedUpTo n w v h =
      let (waited, w1, _, h1) = ask_or-eq-next _ _ w _ h in
      let (latest, w2, read, h2) =
        ask_or-eq-next (providers.get_latest_attested reference.source_chain_key) _ w1 _ h1 in
      attested_at n latest read (require-next _ not_attested w2 h2)

  check_attested-AttestedUpTo :
      (n : ℕ) (latest : LatestAttested) (w v : World)
      → Answered (providers.get_latest_attested reference.source_chain_key) latest
      → check_attested e coder config providers reference n latest w ≡ (next tt, v)
      → AttestedUpTo n
  unfolding check_attested
  check_attested-AttestedUpTo n latest w v read h = elim (Bool-cases (is_attested latest n)) [
    | inl attested ↦ attested_at n latest read attested
    | inr waiting ↦ wait_attested-AttestedUpTo n w v (rw waiting at h)
  ]

  pub await_attestation-AttestedUpTo :
      (n : ℕ) (w v : World)
      → await_attestation e coder config providers reference n w ≡ (next tt, v)
      → AttestedUpTo n
  unfolding await_attestation
  await_attestation-AttestedUpTo n w v h =
      let (latest, w1, read, h1) =
        ask-eq-next (providers.get_latest_attested reference.source_chain_key) _ w h in
      check_attested-AttestedUpTo n latest w1 v read h1
