-- ===== src/Attestcoin.antt =====
-- backend/src/attestcoin: the evidence path, from a source transaction to an accepted claim. This
-- file has the types of verifier-types.ts and those of packages/shared/src/index.ts that only this
-- path uses.
pub mod Address
pub mod Evaluator
pub mod Proof
pub mod Commitment
pub mod Verifier
use veyronis.Prelude.{ℕ, String, Bool, true, false, List, Option, none, some}
use veyronis.Prelude.Flow.{Flow}
use veyronis.Ethers.{Ethers}
use veyronis.Shared.Policy.{EvidencePolicy}
use text.Mathlib.Text.{◌==◌}

pub data VerificationFailureCode : Type 0 where
  source_transaction_not_found source_transaction_not_mined source_block_not_attested
        proof_builder_unavailable proof_not_found invalid_proof proof_verification_failure
        creditcoin_verification_failed unsupported_source_chain missing_transaction_context
        transaction_hash_mismatch subject_mismatch evidence_type_mismatch escrow_mismatch
        agreement_commitment_mismatch evidence_commitment_mismatch policy_commitment_mismatch
        invalid_policy wrong_source_contract wrong_recipient wrong_asset wrong_amount wrong_calldata
        wrong_event stale_evidence missing_verified_freshness_context policy_mismatch
        escrow_not_disputable escrow_not_settleable replay_detected registry_rejection
        authorized_claim_failed escrow_settlement_failed provider_failure configuration_missing :
      VerificationFailureCode

-- `{ ok: false, code, message }`.
pub record Failure : Type 0 where
  pub code : VerificationFailureCode
  pub message : String

abbrev pub failure : VerificationFailureCode → String → Failure
failure code message = record { code = code; message = message }

pub record VerifiedSourceLog : Type 0 where
  pub address : String
  pub topics : List String
  pub log_data : String

pub record VerifiedSourceTransaction : Type 0 where
  pub source_chain_key : ℕ
  pub source_transaction_hash : String
  pub source_block_number : ℕ
  pub transaction_index : ℕ
  pub from : String
  pub to : Option String
  pub chain_id : String
  pub value : String
  pub calldata : String
  pub receipt_status : ℕ
  pub logs : List VerifiedSourceLog

pub record InterpretedEvidence : Type 0 where
  pub evidence_type : String
  pub subject : String
  pub amount : String

pub data ConditionSubmissionMode : Type 0 where
  dispute_evidence prerequisite_record direct_settlement : ConditionSubmissionMode

pub record AttestcoinProofRequest : Type 0 where
  pub escrow_address : String
  pub source_chain_key : ℕ
  pub transaction_hash : String
  pub agreement_commitment : String
  pub evidence_policy_commitment : String
  pub evidence_commitment : String
  pub evidence_type : String
  pub subject : String
  pub policy : EvidencePolicy
  pub condition_submission : Option ConditionSubmissionMode

pub record VerifiedEvidenceClaim : Type 0 where
  pub escrow : String
  pub agreement_commitment : String
  pub evidence_policy_commitment : String
  pub evidence_commitment : String
  pub evidence_type : String
  pub source_chain_key : ℕ
  pub source_transaction_hash : String
  pub subject : String

pub record VerifiedConditionFacts : Type 0 where
  pub source_chain_key : ℕ
  pub source_transaction_hash : String
  pub source_block_number : ℕ
  pub chain_id : String
  pub sender : String
  pub recipient : String
  pub asset : String
  pub amount : String
  pub transaction_included : Bool
  pub transaction_succeeded : Bool
  pub condition_match : Bool

-- `{ ok: true, … }` of `AttestcoinVerificationResult`.
pub record Verification : Type 0 where
  pub claim : VerifiedEvidenceClaim
  pub claim_id : String
  pub transaction_hash : String
  pub verified_amount : String
  pub verified_facts : VerifiedConditionFacts

pub record EscrowDisputeContext : Type 0 where
  pub escrow_address : String
  pub agreement_commitment : String
  pub evidence_policy_commitment : String
  pub active_evidence_commitment : String
  pub direct_condition_settlement : Bool
  pub buyer : String
  pub seller : String
  pub state : ℕ

pub record EscrowSettlementContext : Type 0 where
  pub state : ℕ
  pub verified_claim_id : String
  pub active_evidence_commitment : String
  pub seller_withdrawal : ℕ

pub record RegistrySubmission : Type 0 where
  pub claim_id : String
  pub transaction_hash : String

equal_addresses : Option String → Option String → Bool
equal_addresses (some a) (some b) = a == b
equal_addresses _ _ = false

-- `getAddress(left) === getAddress(right)`, false where a call throws.
unfoldable pub same_address : Ethers → String → String → Bool
unfolding equal_addresses
same_address e left right = equal_addresses (e.get_address left) (e.get_address right)
