-- ===== src/Condition/Admission.antt =====
-- The checks of `AgreementConditionService` in backend/src/agreements/agreement-condition-service.ts
-- that come before a verification is started, and the request that it sends to the verifier. A
-- thrown `AgreementConditionServiceError` is a failure, with its status; any other exception is
-- `threw`.
pub mod Admitted
pub mod Request
pub mod Roles
use veyronis.Prelude.{
  ℕ, String, ◌≡◌, Bool, true, false, not, ◌&&◌, ◌||◌, Option, none, some, if◌then◌else◌, is_some,
}
use veyronis.Prelude.Flow.{Flow, next, failed, threw, require, or_throw, or_fail, ◌>>=◌, ◌>>◌}
use veyronis.Prelude.Text.{to_lower_case, truthy}
use veyronis.Ethers.{Ethers}
use veyronis.Shared.Policy.{
  bytes32_schema, ExternalBlockchainCondition, external_blockchain_condition_from_policy,
}
use veyronis.Shared.Agreement.{
  AgreementMetadata, DeploymentStatus, AgreementLifecycleMode, blockchain_condition_only,
}
use veyronis.Shared.Escrow.{ParticipantRole, buyer, seller, arbitrator}
use veyronis.Attestcoin.{
  AttestcoinProofRequest, ConditionSubmissionMode, direct_settlement, prerequisite_record,
}
use veyronis.Attestcoin.Commitment.{compute_evidence_commitment}
use veyronis.Dashboard.{metadata_mode, is_blockchain_only}
use veyronis.Condition.{AgreementConditionVerification}
use text.Mathlib.Text.{◌==◌}

pub record ServiceError : Type 0 where
  pub status : ℕ
  pub message : String

abbrev pub service_error : ℕ → String → ServiceError
service_error status message = record { status = status; message = message }

abbrev pub is_deployed : DeploymentStatus → Bool
is_deployed DeploymentStatus.deployed = true
is_deployed _ = false

module _ (e : Ethers) where
  -- `roleFor`; its calls of `getAddress` may throw.
  unfoldable pub role_for : AgreementMetadata → String → Flow ServiceError (Option ParticipantRole)
  role_for m wallet = do
    address ← or_throw (e.get_address wallet)
    b ← or_throw (e.get_address m.buyer)
    s ← or_throw (if b == address then some "" else e.get_address m.seller)
    a ← or_throw (if b == address || s == address then some "" else e.get_address m.arbitrator)
    next (
        if b == address
        then some buyer
        else if s == address
        then some seller
        else if a == address
        then some arbitrator
        else none)

  -- `requireAgreement`, on what the repository returned.
  unfoldable pub require_agreement :
      Option AgreementMetadata → String → Flow ServiceError AgreementMetadata
  require_agreement stored wallet = do
    m ← or_fail stored (service_error 404 "Agreement not found.")
    require (is_deployed m.deployment_status && is_some (truthy m.escrow_address))
        (service_error 409 "External conditions require a deployed agreement.")
    role ← role_for m wallet
    require (is_some role) (service_error 403 "Wallet is not an agreement participant.")
    next m

  unfoldable pub require_condition :
      AgreementMetadata → Flow ServiceError ExternalBlockchainCondition
  require_condition m =
      or_fail (external_blockchain_condition_from_policy e m.policy)
        (service_error 404 "This agreement does not have an external blockchain condition.")

  unfoldable pub require_seller : AgreementMetadata → String → Flow ServiceError (Unit {0})
  require_seller m wallet = do
    w ← or_throw (e.get_address wallet)
    s ← or_throw (e.get_address m.seller)
    require (w == s)
        (service_error 403 "Only the agreement seller can submit an external transaction.")

  -- The transaction hash, in lower case.
  unfoldable pub parse_hash : String → Flow ServiceError String
  parse_hash input = do
    require (bytes32_schema input) (service_error 400 "A valid transaction hash is required.")
    next (to_lower_case input)

  unfoldable pub require_unverified :
      String → Option AgreementConditionVerification → Flow ServiceError (Unit {0})
  require_unverified agreement_id none = next tt
  require_unverified agreement_id (some elsewhere) =
      require (elsewhere.agreement_id == agreement_id)
        (service_error 409 "This external transaction is already verified for another agreement.")

  -- What `verify` checks before it starts, by the two lookups that it makes.
  unfoldable pub admit :
      String
      → Option AgreementMetadata
      → (String → Option AgreementConditionVerification)
      → String
      → String
      → Flow ServiceError (AgreementMetadata × String)
  admit agreement_id stored find_verified wallet input = do
    m ← require_agreement stored wallet
    require_seller m wallet
    require_condition m
    hash ← parse_hash input
    require_unverified agreement_id (find_verified hash)
    next (m, hash)

  mode_of_submission : AgreementLifecycleMode → ConditionSubmissionMode
  mode_of_submission mode =
      if is_blockchain_only mode then direct_settlement else prerequisite_record

  -- `proofRequest`; `none` where `getAddress` or the encoding of the commitment throws.
  unfoldable pub proof_request :
      AgreementMetadata → String → Flow ServiceError AttestcoinProofRequest
  unfolding mode_of_submission
  proof_request m hash = do
    escrow ← or_throw (m.escrow_address)
    address ← or_throw (e.get_address escrow)
    commitment ← or_throw (
        compute_evidence_commitment e m.evidence_policy_commitment m.policy.evidence_type
          m.policy.source_chain_key hash m.policy.expected_sender)
    next (record {
      escrow_address = address;
      source_chain_key = m.policy.source_chain_key;
      transaction_hash = hash;
      agreement_commitment = m.agreement_commitment;
      evidence_policy_commitment = m.evidence_policy_commitment;
      evidence_commitment = commitment;
      evidence_type = m.policy.evidence_type;
      subject = m.policy.expected_sender;
      policy = m.policy;
      condition_submission = some (mode_of_submission (metadata_mode e m));
    })

  -- `get`, by what the two repositories return: the condition, with the latest verification.
  unfoldable pub get :
      Option AgreementMetadata
      → Option AgreementConditionVerification
      → String
      → Flow ServiceError (ExternalBlockchainCondition × Option AgreementConditionVerification)
  get stored latest wallet = do
    m ← require_agreement stored wallet
    condition ← require_condition m
    next (condition, latest)
