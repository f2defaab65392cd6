-- ===== src/Frontend/DeployAndFund/Composed.antt =====
-- frontend/app/escrow/deploy-and-fund-flow.ts with the deposit of escrow-funding.ts, as the wizard
-- composes them.
use veyronis.Prelude.{
  ℕ, String, ◌≡◌, refl, ap, subst, ◌∙◌, Bool, true, false, Option, none, some, arith, and-eq-true,
  some-injective,
}
use veyronis.Prelude.Flow.{Flow, next, failed, threw, next-injective}
use veyronis.Shared.Agreement.{DeploymentStatus, AgreementDraft, AgreementMetadata}
use veyronis.Shared.Chain.{AgreementChainSnapshot}
use veyronis.Shared.Escrow.{EscrowState, awaiting_delivery}
use veyronis.Condition.Admission.{is_deployed}
use veyronis.Condition.Admission.Roles.{is_deployed-eq}
use veyronis.Frontend.Executor.{
  TransactionStatus, TransactionReceiptInfo, Outcome, answered, thrown, Thrown, Calling, complete,
  is_complete,
}
use veyronis.Frontend.Funding.{FundingDetails, FundingServices, fund_escrow, an_error}
use veyronis.Frontend.Funding.Funded.{Funded, Replied, fund_escrow-Funded}
use veyronis.Frontend.DeployAndFund.{
  DeployAndFundResult, DeployServices, safely, state_of_chain, safely_get_agreement, fund_details,
  after_funding, fund_deployed, chain_state, is_awaiting_delivery, escrow_if, after_deployment,
  after_creation, deploy_and_fund_agreement,
}

-- What a promise of `fundEscrow` answers or throws.
abbrev settle : {A World : Type 0} → Flow Thrown A × World → Outcome A × World
settle (next a, w) = (answered a, w)
settle (failed t, w) = (thrown t, w)
settle (threw, w) = (thrown (an_error "TypeError"), w)

safely-eq : (o : Outcome FundingDetails) (d : FundingDetails) → safely o ≡ some d → o ≡ answered d
safely-eq (answered a) d h = ap answered (some-injective h)
safely-eq (thrown t) d h = cc

state_of_chain-eqs :
    (o : Option AgreementChainSnapshot)
    → state_of_chain o ≡ some awaiting_delivery
    → (c : AgreementChainSnapshot) × (o ≡ some c) × (c.state ≡ awaiting_delivery)
state_of_chain-eqs none h = cc
state_of_chain-eqs (some c) h = (c, refl, some-injective h)

complete-eq : (s : TransactionStatus) → is_complete s ≡ true → s ≡ complete
complete-eq s h = ground arith

module _ {World : Type 0} (funding : FundingServices World) (required : ℕ)
    (create : AgreementDraft → Calling World AgreementMetadata)
    (get : String → Calling World FundingDetails) where
  abbrev pub wizard_services : DeployServices World
  wizard_services = record {
    create_and_deploy = create;
    get_agreement = get;
    fund = λ details w. settle (fund_escrow funding required details w);
  }

  -- The agreement was created and deployed, the deposit into its escrow went through, and the
  -- agreement that was read at the end awaits its delivery.
  pub record IsDeployedAndFunded (draft : AgreementDraft) (r : DeployAndFundResult) : Type 0 where
    pub agreement : AgreementMetadata
    pub created : Replied (create draft) agreement
    pub id : r.agreement_id ≡ agreement.id
    pub deployed : agreement.deployment_status ≡ DeploymentStatus.deployed
    pub escrow : agreement.escrow_address ≡ some r.escrow_address
    pub details : FundingDetails
    pub details_read : Replied (get agreement.id) details
    pub deposit : Funded funding details
    pub refreshed : FundingDetails
    pub refreshed_read : Replied (get agreement.id) refreshed
    pub chain : AgreementChainSnapshot
    pub on_chain : refreshed.chain ≡ some chain
    pub awaiting : chain.state ≡ awaiting_delivery
    pub returned : r.details ≡ some refreshed
    pub state : r.state ≡ some awaiting_delivery

  escrow_if-eqs :
      (b : Bool) (o : Option String) {a : String}
      → escrow_if wizard_services b o ≡ some a
      → (b ≡ true) × (o ≡ some a)
  escrow_if-eqs false o h = cc
  escrow_if-eqs true none h = cc
  escrow_if-eqs true (some String.[]) h = cc
  escrow_if-eqs true (some (String.◌∷◌ c s)) h = (refl, h)

  settled-Funded :
      (d : FundingDetails) (w : World) (x : Flow Thrown TransactionReceiptInfo × World)
      → fund_escrow funding required d w ≡ x
      → is_complete (after_funding wizard_services (settle x).0).status ≡ true
      → Funded funding d
  settled-Funded d w (next a, u) e h =
      fund_escrow-Funded funding required d w u a e (complete-eq a.status h)
  settled-Funded d w (failed t, u) e h = cc
  settled-Funded d w (threw, u) e h = cc

  fund_details-Funded :
      (o : Option FundingDetails) (w : World)
      → is_complete (fund_details wizard_services o w).0.status ≡ true
      → (d : FundingDetails) × (o ≡ some d) × Funded funding d
  unfolding fund_details
  fund_details-Funded none w h = cc
  fund_details-Funded (some d) w h =
      (d, refl, settled-Funded d w (fund_escrow funding required d w) refl h)

  safely-Replied :
      (id : String) (w : World) (d : FundingDetails)
      → (safely_get_agreement wizard_services id w).0 ≡ some d
      → Replied (get id) d
  unfolding safely_get_agreement
  safely-Replied id w d h = record { at = w; reply = safely-eq (get id w).0 d h }

  awaiting-eq :
      (o : Option EscrowState) → is_awaiting_delivery o ≡ true → o ≡ some awaiting_delivery
  awaiting-eq none h = cc
  awaiting-eq (some s) h = ground arith

  -- The snapshot behind a state that was found.
  chain_state-eqs :
      (o : Option FundingDetails)
      → is_awaiting_delivery (chain_state o) ≡ true
      → (d : FundingDetails) × (c : AgreementChainSnapshot) × (o ≡ some d)
        × (d.chain ≡ some c)
        × (c.state ≡ awaiting_delivery)
  chain_state-eqs none h = cc
  chain_state-eqs (some d) h =
      let (c, on_chain, state) =
        state_of_chain-eqs d.chain (awaiting-eq (state_of_chain d.chain) h) in
      (d, c, refl, on_chain, state)

  after_deployment-IsFunded :
      (draft : AgreementDraft) (m : AgreementMetadata) (o : Option String) (w v : World)
      (r : DeployAndFundResult)
      → Replied (create draft) m
      → escrow_if wizard_services (is_deployed m.deployment_status) m.escrow_address ≡ o
      → after_deployment wizard_services m.id o w ≡ (next r, v)
      → r.funded ≡ true
      → IsDeployedAndFunded draft r
  unfolding after_deployment fund_deployed
  after_deployment-IsFunded draft m none w v r made is h done = cc
  after_deployment-IsFunded draft m (some a) w v r made is h done =
      let (details, w1) = safely_get_agreement wizard_services m.id w in
      let paid = fund_details wizard_services details w1 in
      let again = safely_get_agreement wizard_services m.id paid.1 in
      let same = next-injective (ap (λ x. x.0) h) in
      let (completed, awaiting) =
        and-eq-true (is_complete paid.0.status) (is_awaiting_delivery (chain_state again.0))
          (ap (λ x. x.funded) same ∙ done) in
      let (d, read, deposit) = fund_details-Funded details w1 completed in
      let (refreshed, c, held, on_chain, state) = chain_state-eqs again.0 awaiting in
      subst (IsDeployedAndFunded draft) same (record {
        agreement = m;
        created = made;
        id = refl;
        deployed =
            is_deployed-eq m.deployment_status
              (escrow_if-eqs (is_deployed m.deployment_status) m.escrow_address is).0;
        escrow = (escrow_if-eqs (is_deployed m.deployment_status) m.escrow_address is).1;
        details = d;
        details_read = safely-Replied m.id w d read;
        deposit = deposit;
        refreshed = refreshed;
        refreshed_read = safely-Replied m.id paid.1 refreshed held;
        chain = c;
        on_chain = on_chain;
        awaiting = state;
        returned = held;
        state = awaiting-eq (chain_state again.0) awaiting;
      })

  after_creation-IsFunded :
      (draft : AgreementDraft) (o : Outcome AgreementMetadata) (before w v : World)
      (r : DeployAndFundResult)
      → (create draft before).0 ≡ o
      → after_creation wizard_services o w ≡ (next r, v)
      → r.funded ≡ true
      → IsDeployedAndFunded draft r
  unfolding after_creation
  after_creation-IsFunded draft (thrown t) before w v r e h done = cc
  after_creation-IsFunded draft (answered m) before w v r e h done =
      after_deployment-IsFunded draft m _ w v r (record { at = before; reply = e }) refl h done

  -- A result that is reported as funded is of an agreement that was created and deployed with
  -- this escrow address; a deposit was complete, by the details that were read of this agreement,
  -- and the details that were read of it again, which are returned, await its delivery.
  pub deploy_and_fund_agreement-IsFunded :
      (draft : AgreementDraft) (w v : World) (r : DeployAndFundResult)
      → deploy_and_fund_agreement wizard_services draft w ≡ (next r, v)
      → r.funded ≡ true
      → IsDeployedAndFunded draft r
  unfolding deploy_and_fund_agreement
  deploy_and_fund_agreement-IsFunded draft w v r h done =
      after_creation-IsFunded draft (create draft w).0 w (create draft w).1 v r refl h done
