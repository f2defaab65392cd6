-- ===== src/Attestcoin/Verifier/Checks.antt =====
-- The tests of `verifyAndSubmit` in attestcoin-verifier.ts that call no service but the policy
-- evaluator, in the order of the source.
use veyronis.Prelude.{String, Bool, true, false, not, ◌||◌, ◌==◌ as nat_eq}
use veyronis.Prelude.Flow.{Flow, next, require, or_throw, ◌>>=◌, ◌>>◌}
use veyronis.Ethers.{Ethers}
use veyronis.Shared.Policy.{AssetKind, native, erc20, evidence_policy_schema}
use veyronis.Attestcoin.{
  Failure, failure, AttestcoinProofRequest, VerifiedSourceTransaction, InterpretedEvidence,
  VerifiedEvidenceClaim, VerifiedConditionFacts, EscrowDisputeContext, ConditionSubmissionMode,
  dispute_evidence, prerequisite_record, direct_settlement, same_address, invalid_policy,
  policy_commitment_mismatch, unsupported_source_chain, evidence_type_mismatch, subject_mismatch,
  transaction_hash_mismatch, evidence_commitment_mismatch, escrow_mismatch,
  agreement_commitment_mismatch, escrow_not_settleable,
}
use veyronis.Attestcoin.Commitment.{
  same_hex, compute_evidence_policy_commitment, compute_evidence_commitment,
}

module _ (e : Ethers) (request : AttestcoinProofRequest) where
  -- Before the proof is asked for.
  unfoldable pub check_request : Flow Failure (Unit {0})
  check_request = do
    require (evidence_policy_schema request.policy)
        (failure invalid_policy "The supplied evidence policy is invalid")
    commitment ← or_throw (compute_evidence_policy_commitment e request.policy)
    require (same_hex commitment request.evidence_policy_commitment)
        (failure policy_commitment_mismatch "The evidence policy commitment does not match")
    require (nat_eq request.policy.source_chain_key request.source_chain_key)
        (failure unsupported_source_chain "The policy source chain does not match the request")
    require (same_hex request.policy.evidence_type request.evidence_type)
        (failure evidence_type_mismatch "The policy evidence type does not match the request")
    require (same_address e request.policy.expected_sender request.subject)
        (failure subject_mismatch "The policy sender does not match the requested subject")

  -- After the proof.
  unfoldable pub check_transaction : VerifiedSourceTransaction → Flow Failure (Unit {0})
  check_transaction tx = do
    require (nat_eq tx.source_chain_key request.source_chain_key)
        (failure unsupported_source_chain "Verified source chain does not match the request")
    require (same_hex tx.source_transaction_hash request.transaction_hash)
        (failure transaction_hash_mismatch "Verified transaction hash does not match the request")

  -- After the evaluation.
  unfoldable pub check_interpretation : InterpretedEvidence → Flow Failure (Unit {0})
  check_interpretation ev = do
    require (same_hex ev.evidence_type request.evidence_type)
        (failure evidence_type_mismatch "Verified evidence type does not match the request")
    require (same_address e ev.subject request.subject)
        (failure subject_mismatch "Verified transaction subject does not match the request")

  -- The commitment, its test, and the claim.
  unfoldable pub make_claim :
      VerifiedSourceTransaction → InterpretedEvidence → Flow Failure VerifiedEvidenceClaim
  make_claim tx ev = do
    commitment ← or_throw (
        compute_evidence_commitment e request.evidence_policy_commitment ev.evidence_type
          tx.source_chain_key tx.source_transaction_hash ev.subject)
    require (same_hex commitment request.evidence_commitment) (
        failure evidence_commitment_mismatch
          "Normalized evidence does not produce the dispute commitment")
    escrow ← or_throw (e.get_address request.escrow_address)
    subject ← or_throw (e.get_address ev.subject)
    next (record {
      escrow = escrow;
      agreement_commitment = request.agreement_commitment;
      evidence_policy_commitment = request.evidence_policy_commitment;
      evidence_commitment = commitment;
      evidence_type = ev.evidence_type;
      source_chain_key = tx.source_chain_key;
      source_transaction_hash = tx.source_transaction_hash;
      subject = subject;
    })

  abbrev is_direct : ConditionSubmissionMode → Bool
  is_direct direct_settlement = true
  is_direct _ = false

  abbrev same_flag : Bool → Bool → Bool
  same_flag true b = b
  same_flag false b = not b

  abbrev mode_mismatch : Failure
  mode_mismatch =
      failure escrow_not_settleable
        "The escrow settlement mode does not match the verified condition"

  check_condition_mode : Bool → EscrowDisputeContext → Bool → Flow Failure (Unit {0})
  check_condition_mode direct escrow already = do
    require (same_flag direct escrow.direct_condition_settlement) mode_mismatch
    require (already || nat_eq escrow.state 1)
        (failure escrow_not_settleable "The escrow is not awaiting a verified condition")
    require (already || same_hex escrow.active_evidence_commitment e.zero_hash)
        (failure evidence_commitment_mismatch "The escrow already has active evidence")

  -- The branches on the submission mode; `already` is `claimAlreadySubmitted`.
  unfoldable pub check_mode :
      ConditionSubmissionMode → EscrowDisputeContext → Bool → Flow Failure (Unit {0})
  unfolding check_condition_mode
  check_mode dispute_evidence escrow already = do
    require (same_hex escrow.active_evidence_commitment request.evidence_commitment) (
        failure evidence_commitment_mismatch
          "The active dispute commitment does not match the request")
    require (nat_eq escrow.state 3)
        (failure escrow_not_settleable "The escrow is not in a verifiable state")
  check_mode direct_settlement escrow already = check_condition_mode true escrow already
  check_mode prerequisite_record escrow already = check_condition_mode false escrow already

  unfoldable pub check_escrow :
      ConditionSubmissionMode → EscrowDisputeContext → Bool → Flow Failure (Unit {0})
  check_escrow mode escrow already = do
    require (same_address e escrow.escrow_address request.escrow_address)
        (failure escrow_mismatch "The loaded escrow context belongs to another address")
    require (same_hex escrow.agreement_commitment request.agreement_commitment)
        (failure agreement_commitment_mismatch "The escrow agreement does not match the request")
    require (same_hex escrow.evidence_policy_commitment request.evidence_policy_commitment)
        (failure policy_commitment_mismatch "The escrow commits to another evidence policy")
    check_mode mode escrow already
    require
        (same_address e request.subject escrow.buyer
          || same_address e request.subject escrow.seller)
        (failure subject_mismatch "The verified subject is not an escrow participant")

  abbrev asset_name : AssetKind → String → String
  asset_name native asset = "Native asset"
  asset_name erc20 asset = asset

  unfoldable pub make_facts :
      VerifiedSourceTransaction → InterpretedEvidence → Flow Failure VerifiedConditionFacts
  make_facts tx ev = do
    sender ← or_throw (e.get_address tx.from)
    recipient ← or_throw (e.get_address request.policy.expected_recipient)
    next (record {
      source_chain_key = tx.source_chain_key;
      source_transaction_hash = tx.source_transaction_hash;
      source_block_number = tx.source_block_number;
      chain_id = tx.chain_id;
      sender = sender;
      recipient = recipient;
      asset = asset_name request.policy.asset_kind request.policy.expected_asset;
      amount = ev.amount;
      transaction_included = true;
      transaction_succeeded = true;
      condition_match = true;
    })
