-- ===== src/Dashboard/Snapshot.antt =====
-- The parts of backend/src/agreements/dashboard-service.ts that only read: the role of an address,
-- the offered actions, and the details without a reconciliation. `S` is the state of the
-- repositories; a repository's call that throws is `none`.
pub mod Roles
use veyronis.Prelude.{get_or, String, Option, none, some, List, [], ◌∷◌, if◌then◌else◌}
use veyronis.Prelude.Flow.{Flow, next, failed, or_throw, or_fail, ◌>>=◌}
use veyronis.Prelude.BigInt.{parse_big_int}
use veyronis.Prelude.Text.{truthy}
use veyronis.Ethers.{Ethers}
use veyronis.Shared.Policy.{ExternalBlockchainCondition, external_blockchain_condition_from_policy}
use veyronis.Shared.Agreement.{AgreementMetadata}
use veyronis.Shared.Escrow.{
  is_terminal_escrow_state, ParticipantRole, buyer, seller, arbitrator, AgreementAction,
}
use veyronis.Shared.Chain.{
  AgreementDiscoveryItem, pending, live, closed, AgreementChainSnapshot, AgreementTimelineEvent,
  AgreementConditionStatus,
}
use veyronis.Dashboard.{actions_for, metadata_mode}
use veyronis.Dashboard.Reconciliation.{AgreementContractReader, AgreementReconciliation}
use text.Mathlib.Text.{◌==◌}

pub record DashboardServices (S : Type 0) : Type 0 where
  pub reader : AgreementContractReader
  pub network : String
  pub get_agreement_by_id : String → S → Option AgreementMetadata
  pub list_deployed_agreements : S → List AgreementMetadata
  pub list_agreements_for_participant : String → S → List AgreementMetadata
  pub record_reconciliation : String → AgreementReconciliation → S → Option S
  -- `this.conditions?.latestVerification(id)` and its `status`.
  pub latest_status : String → S → Option AgreementConditionStatus

-- The loop over the three roles; a `getAddress` that throws ends it.
role_among : Ethers → String → List (ParticipantRole × String) → Flow String ParticipantRole
role_among e address [] = failed "Not an agreement participant"
role_among e address ((role, participant) ∷ rest) =
    let later = role_among e address rest in
    or_throw (e.get_address participant) >>= λ p. if p == address then next role else later

unfoldable pub role_for : Ethers → AgreementMetadata → String → Flow String ParticipantRole
unfolding role_among
role_for e m address =
    role_among e address ((buyer, m.buyer) ∷ (seller, m.seller) ∷ (arbitrator, m.arbitrator) ∷ [])

pub record AgreementDetails : Type 0 where
  pub metadata : AgreementMetadata
  pub role : ParticipantRole
  pub chain : Option AgreementChainSnapshot
  pub timeline : List AgreementTimelineEvent
  pub reconciliation : Option AgreementReconciliation
  pub actions : List AgreementAction

pub record ListedAgreement : Type 0 where
  pub metadata : AgreementMetadata
  pub role : ParticipantRole
  pub chain : Option AgreementChainSnapshot

module _ {S : Type 0} (e : Ethers) (services : DashboardServices S) where
  -- `BigInt(snapshot.withdrawalAmount)` may throw, inside the `try` and outside it.
  unfoldable pub snapshot_actions :
      AgreementMetadata
      → ParticipantRole
      → AgreementChainSnapshot
      → Flow String (List AgreementAction)
  snapshot_actions metadata role s = do
    withdrawal ← or_throw (parse_big_int s.withdrawal_amount)
    next (actions_for role s.state withdrawal (metadata_mode e metadata))

  -- The body of the `catch`.
  unfoldable pub snapshot_details :
      AgreementMetadata → ParticipantRole → String → String → Flow String AgreementDetails
  snapshot_details metadata role escrow address = do
    s ← or_throw (services.reader.read_snapshot escrow address)
    actions ← snapshot_actions metadata role s
    next (record {
      metadata = metadata;
      role = role;
      chain = some s;
      timeline = [];
      reconciliation = none;
      actions = actions;
    })

  -- The status that is shown where there is a condition; `pending` where there is no verification.
  shown_status :
      Option ExternalBlockchainCondition
      → Option AgreementConditionStatus
      → Option AgreementConditionStatus
  shown_status none latest = none
  shown_status (some condition) latest = some (get_or latest pending)

  -- One item of `listDiscovery`.
  unfoldable pub discovery_item : S → AgreementMetadata → Flow String AgreementDiscoveryItem
  unfolding shown_status
  discovery_item state m = do
    escrow ← or_fail (truthy m.escrow_address) "Agreement is not deployed"
    s ← or_throw (services.reader.read_snapshot escrow m.buyer)
    next (record {
      id = m.id;
      escrow_address = escrow;
      buyer = m.buyer;
      seller = m.seller;
      arbitrator = m.arbitrator;
      network = services.network;
      required_amount = m.required_amount;
      state = s.state;
      created_at = m.created_at;
      updated_at = m.updated_at;
      status = if is_terminal_escrow_state s.state then closed else live;
      lifecycle = metadata_mode e m;
      condition = external_blockchain_condition_from_policy e m.policy;
      verification_status =
          shown_status (external_blockchain_condition_from_policy e m.policy)
            (services.latest_status m.id state);
    })

  -- `Promise.all` of the items: one that throws fails the whole list.
  items_of : S → List AgreementMetadata → Flow String (List AgreementDiscoveryItem)
  unfolding discovery_item
  items_of state [] = next []
  items_of state (m ∷ rest) =
      let others = items_of state rest in
      discovery_item state m >>= λ item. others >>= λ items. next (item ∷ items)

  unfoldable pub list_discovery : S → Flow String (List AgreementDiscoveryItem)
  unfolding items_of
  list_discovery state = items_of state (services.list_deployed_agreements state)
