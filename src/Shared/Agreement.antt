-- ===== src/Shared/Agreement.antt =====
-- Agreements in packages/shared/src/index.ts: deliverables, drafts, stored metadata, the
-- lifecycle mode, and the validation of a draft. The shape of unknown input is its type here;
-- the schemas' tests on the values are definitions. `uuid` is the package zod's own test.
pub mod Draft
pub mod Examples
use veyronis.Prelude.{
  ℕ, zero, suc, String, ◌≡◌, Bool, true, false, not, ◌&&◌, ◌||◌, Option, none, some, List, [], ◌∷◌,
  ltb, leb, ◌==◌ as nat_eq, if◌then◌else◌, is_some, get_or, any, all, length,
}
use veyronis.Prelude.Text.{text_length}
use veyronis.Ethers.{Ethers}
use veyronis.Shared.Policy.{
  EvidencePolicy, address_schema, bytes32_schema, uint_string_schema, evidence_policy_schema,
  external_blockchain_condition_from_policy,
}

pub data WorkEvidenceKind : Type 0 where
  photo file pdf url github_repository github_commit tracking_url receipt text transaction_hash :
      WorkEvidenceKind

pub record AgreementEvidenceRequirement : Type 0 where
  pub id : String
  pub label : String
  pub kind : WorkEvidenceKind
  pub required : Bool
  pub configuration : List (String × String)
  pub position : ℕ

pub record AgreementDeliverable : Type 0 where
  pub id : String
  pub title : String
  pub description : String
  pub required : Bool
  pub active : Bool
  pub position : ℕ
  pub evidence_requirements : List AgreementEvidenceRequirement

pub data AgreementLifecycleMode : Type 0 where
  blockchain_condition_only application_work_evidence hybrid : AgreementLifecycleMode

pub record AgreementDraft : Type 0 where
  pub buyer : String
  pub seller : String
  pub arbitrator : String
  pub required_amount : String
  pub agreement_nonce : String
  pub evidence_registry : String
  pub policy : EvidencePolicy
  pub agreement_mode : AgreementLifecycleMode
  pub deliverables : Option (List AgreementDeliverable)

pub data DeploymentStatus : Type 0 where
  draft awaiting_confirmation deploying deployed failed : DeploymentStatus

pub record AgreementMetadata : Type 0 where
  pub terms : AgreementDraft
  pub open terms use *
  pub id : String
  pub escrow_address : Option String
  pub agreement_commitment : String
  pub evidence_policy_commitment : String
  pub deployment_transaction_hash : Option String
  pub deployment_block_number : Option String
  pub deployment_status : DeploymentStatus
  pub deployment_error : Option String
  pub created_at : ℕ
  pub updated_at : ℕ

is_work_kind : WorkEvidenceKind → Bool
is_work_kind transaction_hash = false
is_work_kind _ = true

has_work_requirement : AgreementDeliverable → Bool
unfolding is_work_kind any
has_work_requirement d = d.active && any (λ r. is_work_kind r.kind) d.evidence_requirements

unfoldable pub has_application_evidence_requirements : Option (List AgreementDeliverable) → Bool
unfolding has_work_requirement any
has_application_evidence_requirements deliverables =
    any has_work_requirement (get_or deliverables [])

-- The mode that the terms imply, by whether they have a condition and work requirements.
mode_of : Bool → Bool → AgreementLifecycleMode
mode_of condition work =
    if condition && work
    then hybrid
    else if condition
    then blockchain_condition_only
    else application_work_evidence

-- Stored agreements of older versions have no mode, so it is an option here.
unfoldable pub agreement_lifecycle_mode :
    Ethers
    → Option AgreementLifecycleMode
    → Option (List AgreementDeliverable)
    → EvidencePolicy
    → AgreementLifecycleMode
unfolding mode_of has_application_evidence_requirements external_blockchain_condition_from_policy
agreement_lifecycle_mode e (some mode) deliverables policy = mode
agreement_lifecycle_mode e none deliverables policy =
    mode_of (is_some (external_blockchain_condition_from_policy e policy))
      (has_application_evidence_requirements deliverables)
