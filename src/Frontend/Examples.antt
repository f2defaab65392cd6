-- ===== src/Frontend/Examples.antt =====
-- The wizard in its mode without work, and an agreement in both lists.
use veyronis.Prelude.{◌≡◌, refl, true, none, some, arith}
use veyronis.Samples.{sample_ethers, payer, payee, judge, vault, sample_hash, native_policy}
use veyronis.Shared.Agreement.{DeploymentStatus, blockchain_condition_only}
use veyronis.Shared.Escrow.{awaiting_delivery, buyer}
use veyronis.Shared.Chain.{AgreementDiscoveryItem, live}
use veyronis.Dashboard.{metadata_mode}
use veyronis.Frontend.Wizard.{external, is_wizard_step_visible}
use veyronis.Frontend.Wizard.Order.{GoesOn, previous_wizard_step-next_wizard_step}
use veyronis.Frontend.Status.{
  AgreementDashboardItem, agreement_display_status, agreement_action, discovery_display_status,
  discovery_action, status_of,
}
use veyronis.Frontend.Status.Agreement.{Describes, agreement-discovery}

third_visible : is_wizard_step_visible 3 external ≡ true
unfolding is_wizard_step_visible
third_visible = refl

previous_wizard_step-next_wizard_step_example : GoesOn 3 external
previous_wizard_step-next_wizard_step_example =
    previous_wizard_step-next_wizard_step 3 external (omega arith) third_visible

abbrev listed : AgreementDashboardItem
listed = record {
  metadata = record {
    terms = record {
      buyer = payer;
      seller = payee;
      arbitrator = judge;
      required_amount = "1000";
      agreement_nonce = sample_hash;
      evidence_registry = vault;
      policy = native_policy;
      agreement_mode = blockchain_condition_only;
      deliverables = none;
    };
    id = "a";
    escrow_address = some vault;
    agreement_commitment = "0xAA";
    evidence_policy_commitment = "0xBB";
    deployment_transaction_hash = none;
    deployment_block_number = none;
    deployment_status = DeploymentStatus.deployed;
    deployment_error = none;
    created_at = 1;
    updated_at = 1;
  };
  role = buyer;
  chain = some (record {
    escrow_address = vault;
    buyer = payer;
    seller = payee;
    arbitrator = judge;
    required_amount = "1000";
    agreement_commitment = "0xaa";
    evidence_policy_commitment = "0xbb";
    state = awaiting_delivery;
    deposited_amount = "1000";
    active_evidence_commitment = "0x00";
    verified_claim_id = "0x00";
    withdrawal_amount = "0";
    block_number = "7";
  });
}

abbrev discovered : AgreementDiscoveryItem
discovered = record {
  id = "a";
  escrow_address = vault;
  buyer = payer;
  seller = payee;
  arbitrator = judge;
  network = "sepolia";
  required_amount = "1000";
  state = awaiting_delivery;
  created_at = 1;
  updated_at = 1;
  status = live;
  lifecycle = metadata_mode sample_ethers listed.metadata;
  condition = none;
  verification_status = none;
}

discovered-Describes : Describes sample_ethers listed none discovered
unfolding status_of
discovered-Describes = record {
  snapshot = _;
  on_chain = refl;
  state = refl;
  lifecycle = refl;
  verified = refl;
}

agreement-discovery_example :
    (agreement_display_status sample_ethers listed none ≡ discovery_display_status discovered)
    × (agreement_action listed ≡ discovery_action discovered (some buyer))
agreement-discovery_example =
    agreement-discovery sample_ethers listed none discovered discovered-Describes
