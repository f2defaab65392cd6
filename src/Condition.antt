-- ===== src/Condition.antt =====
-- The external condition of an agreement in the backend: the store of its verifications and the
-- service that runs one.
pub mod Repository
pub mod Admission
pub mod Service
use veyronis.Prelude.{ℕ, String, Option}
use veyronis.Shared.Chain.{AgreementConditionStatus}
use veyronis.Attestcoin.{VerifiedConditionFacts, VerificationFailureCode}

pub record AgreementConditionVerification : Type 0 where
  pub id : String
  pub agreement_id : String
  pub submitter : String
  pub transaction_hash : String
  pub status : AgreementConditionStatus
  pub verified_claim_id : Option String
  pub verified_amount : Option String
  pub verified_facts : Option VerifiedConditionFacts
  pub failure_code : Option VerificationFailureCode
  pub failure_message : Option String
  pub submitted_at : ℕ
  pub verified_at : Option ℕ
  pub updated_at : ℕ
