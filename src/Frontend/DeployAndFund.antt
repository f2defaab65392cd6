-- ===== src/Frontend/DeployAndFund.antt =====
-- frontend/app/escrow/deploy-and-fund-flow.ts: an agreement is created and deployed, and its escrow
-- funded. The backend and the wallet answer or throw in any way over a world of any type; the
-- callback of the stages is left out, and what is thrown is a failure.
pub mod Composed
pub mod Examples
use veyronis.Prelude.{
  ℕ, String, ◌≡◌, refl, sym, ap, subst, ◌∙◌, Bool, true, false, ◌&&◌, Option, none, some, ◌==◌,
  arith, if◌then◌else◌, Bool-cases, inl, inr, and-eq-true, ==_iff,
}
use veyronis.Prelude.Text.{truthy}
use veyronis.Prelude.Flow.{Flow, next, failed}
use veyronis.Prelude.Flow.Run.{Run}
use veyronis.Shared.Agreement.{AgreementDraft, AgreementMetadata}
use veyronis.Shared.Chain.{AgreementChainSnapshot}
use veyronis.Shared.Escrow.{EscrowState, awaiting_delivery, state_code}
use veyronis.Condition.Admission.{is_deployed}
use veyronis.Frontend.Executor.{
  TransactionStatus, TransactionReceiptInfo, Outcome, answered, thrown, Thrown, other, Calling,
  bare, complete, is_complete, rpc_error, reconciliation_failed,
}
use veyronis.Frontend.Funding.{FundingDetails, an_error}

pub record DeployAndFundResult : Type 0 where
  pub agreement_id : String
  pub escrow_address : String
  pub funded : Bool
  pub state : Option EscrowState
  pub transaction : TransactionReceiptInfo
  pub details : Option FundingDetails

pub record DeployServices (World : Type 0) : Type 0 where
  pub create_and_deploy : AgreementDraft → Calling World AgreementMetadata
  pub get_agreement : String → Calling World FundingDetails
  pub fund : FundingDetails → Calling World TransactionReceiptInfo

-- `safelyGetAgreement`.
abbrev safely : Outcome FundingDetails → Option FundingDetails
safely (answered d) = some d
safely (thrown t) = none

abbrev state_of_chain : Option AgreementChainSnapshot → Option EscrowState
state_of_chain none = none
state_of_chain (some c) = some c.state

-- `refreshed?.chain?.state`.
abbrev pub chain_state : Option FundingDetails → Option EscrowState
chain_state none = none
chain_state (some d) = state_of_chain d.chain

abbrev pub is_awaiting_delivery : Option EscrowState → Bool
is_awaiting_delivery none = false
is_awaiting_delivery (some s) = state_code s == state_code awaiting_delivery

abbrev message_or : Option String → String → String
message_or none default = default
message_or (some m) default = m

module _ {World : Type 0} (services : DeployServices World) where
  unfoldable pub safely_get_agreement : String → World → Option FundingDetails × World
  safely_get_agreement id w = let (o, v) = services.get_agreement id w in (safely o, v)

  abbrev pub after_funding : Outcome TransactionReceiptInfo → TransactionReceiptInfo
  after_funding (answered r) = r
  after_funding (thrown t) = record (bare rpc_error) {
    error = some (message_or t.message "Funding did not complete.");
  }

  unfoldable pub fund_details : Option FundingDetails → World → TransactionReceiptInfo × World
  fund_details none w = (
    record (bare reconciliation_failed) {
      error = some "The deployed agreement could not be reconciled before funding.";
    },
    w,
  )
  fund_details (some details) w = let (o, v) = services.fund details w in (after_funding o, v)

  unfoldable pub fund_deployed : String → String → World → DeployAndFundResult × World
  unfolding safely_get_agreement fund_details
  fund_deployed id escrow_address w =
      let (details, w1) = safely_get_agreement id w in
      let (transaction, w2) = fund_details details w1 in
      let (refreshed, w3) = safely_get_agreement id w2 in
      (
        record {
          agreement_id = id;
          escrow_address = escrow_address;
          funded = is_complete transaction.status && is_awaiting_delivery (chain_state refreshed);
          state = chain_state refreshed;
          transaction = transaction;
          details = refreshed;
        },
        w3,
      )

  abbrev pub escrow_if : Bool → Option String → Option String
  escrow_if true o = truthy o
  escrow_if false o = none

  unfoldable pub after_deployment :
      String → Option String → World → Flow Thrown DeployAndFundResult × World
  unfolding fund_deployed
  after_deployment id none w = (failed (an_error "Deployment was not confirmed"), w)
  after_deployment id (some escrow_address) w =
      let (r, v) = fund_deployed id escrow_address w in (next r, v)

  unfoldable pub after_creation :
      Outcome AgreementMetadata → World → Flow Thrown DeployAndFundResult × World
  unfolding after_deployment
  after_creation (thrown t) w = (failed t, w)
  after_creation (answered m) w =
      after_deployment m.id (escrow_if (is_deployed m.deployment_status) m.escrow_address) w

  unfoldable pub deploy_and_fund_agreement : AgreementDraft → Run World Thrown DeployAndFundResult
  unfolding after_creation
  deploy_and_fund_agreement draft w =
      let (o, v) = services.create_and_deploy draft w in after_creation o v
