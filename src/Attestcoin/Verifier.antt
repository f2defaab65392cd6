-- ===== src/Attestcoin/Verifier.antt =====
-- `AttestcoinVerifier.verifyAndSubmit` of backend/src/attestcoin/attestcoin-verifier.ts. The log
-- lines that it writes are left out.
pub mod Interfaces
pub mod Checks
pub mod Safety
pub mod Calls
pub mod Submissions
pub mod Confirmed
pub mod Examples
use veyronis.Prelude.{
  ℕ, String, ◌≡◌, Bool, true, false, not, ◌&&◌, ◌||◌, Option, none, some, ltb, ◌==◌ as nat_eq,
  if◌then◌else◌, get_or, List, ◌∷◌,
}
use veyronis.Prelude.Flow.{Flow, next, failed, threw, or_fail, or_throw}
use veyronis.Prelude.Flow.Run.{Run, pure, lift, require, ◌>>=◌, ◌>>◌}
use veyronis.Ethers.{Ethers}
use veyronis.Attestcoin.{
  Failure, failure, AttestcoinProofRequest, VerifiedSourceTransaction, InterpretedEvidence,
  VerifiedEvidenceClaim, Verification, VerifiedConditionFacts, ConditionSubmissionMode,
  dispute_evidence, prerequisite_record, direct_settlement, EscrowSettlementContext,
  RegistrySubmission, same_address, replay_detected, authorized_claim_failed, provider_failure,
  escrow_settlement_failed,
}
use veyronis.Attestcoin.Commitment.{same_hex, compute_claim_id, compute_source_evidence_key}
use Interfaces.{
  Services, Trace, prove, claim_consumed, evidence_escrow, dispute_context, submit,
  settlement_context, verified_claim, perform,
}
use Checks.{
  check_request, check_transaction, check_interpretation, make_claim, check_escrow, make_facts,
}

abbrev pub Verifying : Type 0 → Type 0
Verifying A = Run Trace Failure A

-- `request.conditionSubmission ?? "dispute_evidence"`.
abbrev pub mode_of : AttestcoinProofRequest → ConditionSubmissionMode
mode_of request = get_or request.condition_submission dispute_evidence

module _ (e : Ethers) (s : Services) where
  -- Both answers are in, or one of the calls rejected.
  replay_test : VerifiedEvidenceClaim → Option Bool → Option String → Flow Failure Bool
  replay_test claim (some consumed) (some bound) =
      let already = same_address e bound claim.escrow in
      if (consumed || not (same_address e bound e.zero_address)) && not already
      then failed (failure replay_detected "The normalized evidence was already consumed or bound")
      else next already
  replay_test claim _ _ =
      failed (failure authorized_claim_failed "The authorized claim could not be checked")

  -- `Promise.all` starts both calls. The result is `claimAlreadySubmitted`.
  unfoldable pub check_replay : VerifiedEvidenceClaim → String → String → Verifying Bool
  unfolding replay_test
  check_replay claim id key t = (
    replay_test claim (s.is_claim_consumed t id) (s.source_evidence_escrow t key),
    evidence_escrow key ∷ claim_consumed id ∷ t,
  )

  unfoldable pub submission_of :
      ConditionSubmissionMode → Trace → VerifiedEvidenceClaim → Option RegistrySubmission
  submission_of direct_settlement t claim = s.submit_verified_condition_claim t claim
  submission_of prerequisite_record t claim = s.submit_verified_prerequisite_claim t claim
  submission_of dispute_evidence t claim = s.submit_verified_claim t claim

  -- `none` is the `undefined` of a claim that was submitted before.
  unfoldable pub submit_claim :
      ConditionSubmissionMode → VerifiedEvidenceClaim → Bool → Verifying (Option RegistrySubmission)
  submit_claim mode claim true = pure none
  submit_claim mode claim false = do
    submission ← perform (submit mode claim) (λ t.
        or_fail (submission_of mode t claim) (
          failure authorized_claim_failed "The authorized EvidenceClaimRegistry submission failed"))
    pure (some submission)

  unfoldable pub is_settled : EscrowSettlementContext → String → Bool
  unfolding same_hex
  is_settled settlement id =
      nat_eq settlement.state 4
      && same_hex settlement.verified_claim_id id
      && ltb 0 settlement.seller_withdrawal

  unfoldable pub is_recorded : EscrowSettlementContext → String → Bool
  unfolding same_hex
  is_recorded settlement id =
      nat_eq settlement.state 1
      && same_hex settlement.verified_claim_id id
      && same_hex settlement.active_evidence_commitment e.zero_hash
      && nat_eq settlement.seller_withdrawal 0

  -- What is read back from the escrow once the claim is submitted.
  unfoldable pub confirm :
      ConditionSubmissionMode → AttestcoinProofRequest → String → Verifying (Unit {0})
  confirm direct_settlement request id = do
    settlement ← perform (settlement_context request.escrow_address) (λ t.
        or_fail (s.read_settlement_context t request.escrow_address)
          (failure escrow_settlement_failed "The escrow settlement state could not be read"))
    require (is_settled settlement id) (
        failure escrow_settlement_failed
          "The escrow did not credit the seller for the verified condition")
  confirm prerequisite_record request id = do
    settlement ← perform (settlement_context request.escrow_address) (λ t.
        or_fail (s.read_settlement_context t request.escrow_address)
          (failure escrow_settlement_failed "The escrow prerequisite state could not be read"))
    require (is_recorded settlement id) (
        failure escrow_settlement_failed
          "The escrow did not record the verified condition without settlement")
  confirm dispute_evidence request id = do
    verified ← perform (verified_claim request.escrow_address) (λ t.
        or_fail (s.read_verified_claim_id t request.escrow_address)
          (failure escrow_settlement_failed "The escrow verified claim could not be read"))
    require (same_hex verified id)
        (failure escrow_settlement_failed "The escrow did not record the accepted claim")

  abbrev pub accepted_claim_id : Option RegistrySubmission → String → String
  accepted_claim_id none id = id
  accepted_claim_id (some submission) id = submission.claim_id

  abbrev pub result_hash : Option RegistrySubmission → String → String
  result_hash none hash = hash
  result_hash (some submission) hash = submission.transaction_hash

  -- The block under the last `try`.
  unfoldable pub settle :
      AttestcoinProofRequest
      → VerifiedEvidenceClaim
      → String
      → Bool
      → String
      → VerifiedConditionFacts
      → Verifying Verification
  settle request claim id already amount facts = do
    submission ← submit_claim (mode_of request) claim already
    confirm (mode_of request) request (accepted_claim_id submission id)
    pure (record {
      claim = claim;
      claim_id = accepted_claim_id submission id;
      transaction_hash = result_hash submission request.transaction_hash;
      verified_amount = amount;
      verified_facts = facts;
    })

  -- `catch { return failure("AUTHORIZED_CLAIM_FAILED", …) }`.
  abbrev recover : {A : Type 0} → Flow Failure A → Flow Failure A
  recover (next a) = next a
  recover (failed f) = failed f
  recover threw =
      failed (failure authorized_claim_failed "The authorized claim could not be checked")

  unfoldable pub caught : {A : Type 0} → Verifying A → Verifying A
  caught m t = let (r, u) = m t in (recover r, u)

  -- From the claim on.
  unfoldable pub authorize :
      AttestcoinProofRequest → VerifiedEvidenceClaim → String → Verifying Bool
  authorize request claim id = do
    key ← lift (or_throw (compute_source_evidence_key e claim))
    already ← check_replay claim id key
    escrow ← perform (dispute_context request.escrow_address) (λ t.
        or_fail (s.read_dispute_context t request.escrow_address)
          (failure provider_failure "Failed to read the escrow dispute context"))
    lift (check_escrow e request (mode_of request) escrow already)
    pure already

  -- From the claim's identity on.
  unfoldable pub submit_evidence :
      AttestcoinProofRequest
      → VerifiedSourceTransaction
      → InterpretedEvidence
      → VerifiedEvidenceClaim
      → Verifying Verification
  submit_evidence request tx ev claim = do
    id ← lift (or_throw (compute_claim_id e claim))
    already ← authorize request claim id
    facts ← lift (make_facts e request tx ev)
    caught (settle request claim id already ev.amount facts)

  unfoldable pub verify_and_submit : AttestcoinProofRequest → Verifying Verification
  verify_and_submit request = do
    lift (check_request e request)
    tx ← perform (prove request) (λ t. s.verify t request)
    lift (check_transaction e request tx)
    ev ← lift (s.evaluate tx request.policy)
    lift (check_interpretation e request ev)
    claim ← lift (make_claim e request tx ev)
    submit_evidence request tx ev claim
