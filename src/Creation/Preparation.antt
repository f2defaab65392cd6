-- ===== src/Creation/Preparation.antt =====
-- How `prepare` of backend/src/agreements/agreement-service.ts makes the stored agreement of a
-- draft. `commit` is any function of a draft and its policy's commitment, as
-- `compute_agreement_commitment` of Creation/Commitment is.
pub mod Normalized
use Prim.Native.String
use veyronis.Prelude.{ℕ, String, ◌≡◌, Bool, Option, none, some}
use veyronis.Prelude.Flow.{Flow, next, or_throw, ◌>>=◌}
use veyronis.Prelude.Text.{to_lower_case}
use veyronis.Ethers.{Ethers}
use veyronis.Shared.Policy.{EvidencePolicy}
use veyronis.Shared.Agreement.{AgreementDraft, AgreementMetadata, DeploymentStatus}
use veyronis.Shared.Agreement.Draft.{validate_agreement_draft}
use veyronis.Attestcoin.Commitment.{compute_evidence_policy_commitment}

module _ (e : Ethers) where
  unfoldable pub normalize_policy : EvidencePolicy → Flow String EvidencePolicy
  normalize_policy p = do
    contract ← or_throw (e.get_address p.expected_source_contract)
    recipient ← or_throw (e.get_address p.expected_recipient)
    asset ← or_throw (e.get_address p.expected_asset)
    sender ← or_throw (e.get_address p.expected_sender)
    next (record p {
      expected_source_contract = contract;
      expected_recipient = recipient;
      expected_asset = asset;
      expected_sender = sender;
      evidence_type = to_lower_case p.evidence_type;
      calldata_selector = to_lower_case p.calldata_selector;
    })

  unfoldable pub normalize_draft : AgreementDraft → Flow String AgreementDraft
  normalize_draft d = do
    buyer ← or_throw (e.get_address d.buyer)
    seller ← or_throw (e.get_address d.seller)
    arbitrator ← or_throw (e.get_address d.arbitrator)
    registry ← or_throw (e.get_address d.evidence_registry)
    policy ← normalize_policy d.policy
    next (record d {
      buyer = buyer;
      seller = seller;
      arbitrator = arbitrator;
      evidence_registry = registry;
      policy = policy;
    })

  module _ (uuid : String → Bool) where
    -- The draft that `prepare` stores.
    unfoldable pub accepted_draft : AgreementDraft → Flow String AgreementDraft
    accepted_draft input = validate_agreement_draft uuid e input >>= normalize_draft

  module _ (uuid : String → Bool) (commit : AgreementDraft → String → Option String) where
    unfoldable pub prepared_agreement : ℕ → AgreementDraft → Flow String AgreementMetadata
    prepared_agreement now input = do
      draft ← accepted_draft uuid input
      policy_commitment ← or_throw (compute_evidence_policy_commitment e draft.policy)
      commitment ← or_throw (commit draft policy_commitment)
      next (record {
        terms = draft;
        id = e.keccak256 (e.to_utf8_bytes (String.◌++◌ "veyronis:" commitment));
        escrow_address = none;
        agreement_commitment = commitment;
        evidence_policy_commitment = policy_commitment;
        deployment_transaction_hash = none;
        deployment_block_number = none;
        deployment_status = DeploymentStatus.awaiting_confirmation;
        deployment_error = none;
        created_at = now;
        updated_at = now;
      })
