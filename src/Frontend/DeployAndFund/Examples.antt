-- ===== src/Frontend/DeployAndFund/Examples.antt =====
-- An agreement that is deployed and funded.
use veyronis.Prelude.{ℕ, String, ◌≡◌, refl, true, none, some, []}
use veyronis.Prelude.Flow.{Flow, next}
use veyronis.Prelude.Flow.Run.{◌>>=◌}
use veyronis.Prelude.Text.{to_lower_case}
use veyronis.Prelude.Text.Decimal.{decimal}
use veyronis.Prelude.BigInt.{parse_big_int}
use veyronis.Samples.{payer, payee, judge, vault, sample_hash, native_policy}
use veyronis.Shared.Agreement.{
  AgreementDraft, AgreementMetadata, DeploymentStatus, application_work_evidence,
}
use veyronis.Shared.Escrow.{awaiting_delivery}
use veyronis.Frontend.Executor.{Thrown, Calling, answered, execute_wallet_transaction, latest}
use veyronis.Frontend.Funding.{
  FundingDetails, fund_escrow, check_funding_state, validate_escrow_funding,
}
use veyronis.Frontend.Funding.Examples.{services, details, funded_details, receipt}
use veyronis.Frontend.DeployAndFund.{DeployAndFundResult, deploy_and_fund_agreement}
use veyronis.Frontend.DeployAndFund.Composed.{
  wizard_services, IsDeployedAndFunded, deploy_and_fund_agreement-IsFunded,
}

abbrev draft : AgreementDraft
draft = record {
  buyer = payer;
  seller = payee;
  arbitrator = judge;
  required_amount = "250";
  agreement_nonce = sample_hash;
  evidence_registry = vault;
  policy = native_policy;
  agreement_mode = application_work_evidence;
  deliverables = some [];
}

abbrev agreement : AgreementMetadata
agreement = record {
  terms = draft;
  id = "a";
  escrow_address = some vault;
  agreement_commitment = "0xAA";
  evidence_policy_commitment = "0xBB";
  deployment_transaction_hash = none;
  deployment_block_number = none;
  deployment_status = DeploymentStatus.deployed;
  deployment_error = none;
  created_at = 1;
  updated_at = 1;
}

abbrev create : AgreementDraft → Calling ℕ AgreementMetadata
create d w = (answered agreement, w)

abbrev details_in : ℕ → FundingDetails
details_in ℕ.zero = details
details_in (ℕ.suc n) = funded_details

abbrev get : String → Calling ℕ FundingDetails
get id w = (answered (details_in w), w)

abbrev result : DeployAndFundResult
result = record {
  agreement_id = "a";
  escrow_address = vault;
  funded = true;
  state = some awaiting_delivery;
  transaction = receipt;
  details = some funded_details;
}

deployed :
    ◌≡◌ {A = Flow Thrown DeployAndFundResult × ℕ}
      (deploy_and_fund_agreement (wizard_services services 11155111 create get) draft 0)
      (next result, 1)
unfolding deploy_and_fund_agreement fund_escrow execute_wallet_transaction latest to_lower_case
    decimal parse_big_int ◌>>=◌ check_funding_state validate_escrow_funding
deployed = refl

deploy_and_fund_agreement-IsFunded_example :
    IsDeployedAndFunded services 11155111 create get draft result
deploy_and_fund_agreement-IsFunded_example =
    deploy_and_fund_agreement-IsFunded services 11155111 create get draft 0 1 result deployed refl
