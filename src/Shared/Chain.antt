-- ===== src/Shared/Chain.antt =====
-- What packages/shared/src/index.ts says of an agreement on the chain and of its condition. Dates
-- are milliseconds.
use veyronis.Prelude.{ℕ, String, Bool, Option}
use veyronis.Shared.Policy.{ExternalBlockchainCondition}
use veyronis.Shared.Agreement.{AgreementLifecycleMode}
use veyronis.Shared.Escrow.{EscrowState}

pub record AgreementChainSnapshot : Type 0 where
  pub escrow_address : String
  pub buyer : String
  pub seller : String
  pub arbitrator : String
  pub required_amount : String
  pub agreement_commitment : String
  pub evidence_policy_commitment : String
  pub state : EscrowState
  pub deposited_amount : String
  pub active_evidence_commitment : String
  pub verified_claim_id : String
  pub withdrawal_amount : String
  pub block_number : String

pub data DisputeResolution : Type 0 where
  release_to_seller refund_buyer : DisputeResolution

pub record AgreementTimelineEvent : Type 0 where
  pub transaction_hash : String
  pub block_number : String
  pub log_index : ℕ
  pub name : String
  pub actor : Option String
  pub timestamp : Option String
  pub amount : Option String
  pub evidence_commitment : Option String
  pub claim_id : Option String
  pub resolution : Option DisputeResolution
  pub advisory : Bool

pub data AgreementConditionStatus : Type 0 where
  pending verification_in_progress verified verification_failed : AgreementConditionStatus

pub data DiscoveryStatus : Type 0 where
  live closed : DiscoveryStatus

pub record AgreementDiscoveryItem : Type 0 where
  pub id : String
  pub escrow_address : String
  pub buyer : String
  pub seller : String
  pub arbitrator : String
  pub network : String
  pub required_amount : String
  pub state : EscrowState
  pub created_at : ℕ
  pub updated_at : ℕ
  pub status : DiscoveryStatus
  pub lifecycle : AgreementLifecycleMode
  pub condition : Option ExternalBlockchainCondition
  pub verification_status : Option AgreementConditionStatus
