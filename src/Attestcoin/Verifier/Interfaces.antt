-- ===== src/Attestcoin/Verifier/Interfaces.antt =====
-- The interfaces that `AttestcoinVerifier` is built over (verifier-types.ts), and the calls that
-- it makes of them. What a service answers depends on the calls made so far, and otherwise in any
-- way, so whatever else changes the chain between two calls is part of the answers.
use veyronis.Prelude.{String, Bool, List, ◌∷◌, Option}
use veyronis.Prelude.Flow.{Flow}
use veyronis.Prelude.Flow.Run.{Run}
use veyronis.Shared.Policy.{EvidencePolicy}
use veyronis.Attestcoin.{
  Failure, AttestcoinProofRequest, VerifiedSourceTransaction, InterpretedEvidence,
  VerifiedEvidenceClaim, EscrowDisputeContext, EscrowSettlementContext, RegistrySubmission,
  ConditionSubmissionMode,
}

pub data Call : Type 0 where
  prove : AttestcoinProofRequest → Call
  claim_consumed : String → Call
  evidence_escrow : String → Call
  dispute_context : String → Call
  submit : ConditionSubmissionMode → VerifiedEvidenceClaim → Call
  settlement_context : String → Call
  verified_claim : String → Call

-- The calls made, the latest first.
abbrev pub Trace : Type 0
Trace = List Call

-- `none` is a call that rejects. `verify` and `evaluate` return a failure, or what they found.
pub record Services : Type 0 where
  pub verify : Trace → AttestcoinProofRequest → Flow Failure VerifiedSourceTransaction
  pub evaluate : VerifiedSourceTransaction → EvidencePolicy → Flow Failure InterpretedEvidence
  pub is_claim_consumed : Trace → String → Option Bool
  pub source_evidence_escrow : Trace → String → Option String
  pub submit_verified_claim : Trace → VerifiedEvidenceClaim → Option RegistrySubmission
  pub submit_verified_condition_claim : Trace → VerifiedEvidenceClaim → Option RegistrySubmission
  pub submit_verified_prerequisite_claim : Trace → VerifiedEvidenceClaim → Option RegistrySubmission
  pub read_dispute_context : Trace → String → Option EscrowDisputeContext
  pub read_settlement_context : Trace → String → Option EscrowSettlementContext
  pub read_verified_claim_id : Trace → String → Option String

-- A call, answered in the state that it finds, and noted.
unfoldable pub perform : {A : Type 0} → Call → (Trace → Flow Failure A) → Run Trace Failure A
perform c answer t = (answer t, c ∷ t)
