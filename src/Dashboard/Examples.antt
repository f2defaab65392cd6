-- ===== src/Dashboard/Examples.antt =====
-- The dashboard over a small agreement and its contract.
use veyronis.Prelude.{String, ◌≡◌, ◌↔◌, refl, Option, none, some, List, [], ◌∷◌}
use veyronis.Prelude.Flow.{next}
use veyronis.Prelude.Flow.Run.{◌>>=◌}
use veyronis.Prelude.Text.{to_lower_case, truthy}
use veyronis.Prelude.BigInt.{parse_big_int}
use veyronis.Samples.{
  sample_ethers, payer, payee, judge, vault, sample_hash, native_policy, address_of,
}
use veyronis.Shared.Agreement.{
  AgreementMetadata, DeploymentStatus, blockchain_condition_only, agreement_lifecycle_mode,
}
use veyronis.Shared.Escrow.{awaiting_payment, buyer, deposit, cancel, can_withdraw_escrow_funds}
use veyronis.Shared.Chain.{AgreementChainSnapshot}
use veyronis.Dashboard.{actions_for, metadata_for_participant}
use veyronis.Dashboard.Reconciliation.{
  AgreementContractReader, AgreementReconciliation, Reconciled, matched, reconcile, mismatches_of,
  compare_address, compare,
}
use veyronis.Dashboard.Reconciliation.Matched.{Agrees, reconcile-matched}
use veyronis.Dashboard.Snapshot.{DashboardServices, AgreementDetails, role_for, snapshot_actions}
use veyronis.Dashboard.Snapshot.Roles.{IsVisible, IsRole}
use veyronis.Dashboard.Service.{details, details_for, details_on_chain, reconciled_details}
use veyronis.Dashboard.Service.Details.{IsChainOf, Shown, details-Shown}

abbrev pub agreement : AgreementMetadata
agreement = record {
  terms = record {
    buyer = payer;
    seller = payee;
    arbitrator = judge;
    required_amount = "1000";
    agreement_nonce = sample_hash;
    evidence_registry = vault;
    policy = native_policy;
    agreement_mode = blockchain_condition_only;
    deliverables = none;
  };
  id = "a";
  escrow_address = some vault;
  agreement_commitment = "0xAA";
  evidence_policy_commitment = "0xBB";
  deployment_transaction_hash = none;
  deployment_block_number = none;
  deployment_status = DeploymentStatus.deployed;
  deployment_error = none;
  created_at = 1;
  updated_at = 1;
}

abbrev pub on_chain : AgreementChainSnapshot
on_chain = record {
  escrow_address = vault;
  buyer = payer;
  seller = payee;
  arbitrator = judge;
  required_amount = "1000";
  agreement_commitment = "0xaa";
  evidence_policy_commitment = "0xbb";
  state = awaiting_payment;
  deposited_amount = "0";
  active_evidence_commitment = "0x00";
  verified_claim_id = "0x00";
  withdrawal_amount = "0";
  block_number = "7";
}

abbrev chain_reader : AgreementContractReader
chain_reader = record {
  read_snapshot = λ address participant. some on_chain;
  read = λ address participant from. some (on_chain, []);
}

abbrev pub matched_report : Reconciled
matched_report = record {
  snapshot = on_chain;
  timeline = [];
  reconciliation = record { status = matched; mismatches = []; checked_at_block = "7" };
}

reconciles : reconcile sample_ethers chain_reader agreement payer ≡ next matched_report
unfolding reconcile mismatches_of compare_address compare to_lower_case address_of
reconciles = refl

reconcile-matched_example :
    (escrow : String) × (truthy (some vault) ≡ some escrow)
    × (chain_reader.read escrow payer none ≡ some (on_chain, []))
    × ((matched ≡ matched) ↔ Agrees sample_ethers agreement escrow on_chain)
    × ((matched ≡ matched) ↔ (◌≡◌ {A = List String} [] []))
reconcile-matched_example =
    reconcile-matched sample_ethers chain_reader agreement payer matched_report reconciles

abbrev pub dashboard : DashboardServices (List AgreementReconciliation)
dashboard = record {
  reader = chain_reader;
  network = "sepolia";
  get_agreement_by_id = λ id s. some agreement;
  list_deployed_agreements = λ s. agreement ∷ [];
  list_agreements_for_participant = λ address s. agreement ∷ [];
  record_reconciliation = λ id r s. some (r ∷ s);
  latest_status = λ id s. none;
}

abbrev shown_details : AgreementDetails
shown_details = record {
  metadata = agreement;
  role = buyer;
  chain = some on_chain;
  timeline = [];
  reconciliation = some matched_report.reconciliation;
  actions = deposit ∷ cancel ∷ [];
}

shows :
    details sample_ethers dashboard "a" payer []
    ≡ (next shown_details, matched_report.reconciliation ∷ [])
unfolding details details_for details_on_chain reconciled_details snapshot_actions role_for
    actions_for can_withdraw_escrow_funds metadata_for_participant agreement_lifecycle_mode
    parse_big_int reconcile mismatches_of compare_address compare to_lower_case address_of ◌>>=◌
shows = refl

details-Shown_example :
    (address : String) × (stored : AgreementMetadata) × (sample_ethers.get_address payer
      ≡ some address)
    × (◌≡◌ {A = Option AgreementMetadata} (some agreement) (some stored))
    × IsVisible sample_ethers stored agreement
    × IsRole sample_ethers agreement address buyer
    × IsChainOf sample_ethers dashboard agreement address (some vault) (some on_chain)
    × Shown sample_ethers shown_details (some on_chain)
details-Shown_example =
    details-Shown sample_ethers dashboard "a" payer [] shown_details
      (matched_report.reconciliation ∷ []) shows
