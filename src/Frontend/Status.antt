-- ===== src/Frontend/Status.antt =====
-- frontend/app/escrow/agreement-status.ts: what the list of one's own agreements and the list of
-- all agreements say of one. The labels that only rename a value are left out.
pub mod Agreement
use veyronis.Prelude.{
  ℕ, String, ◌≡◌, Bool, true, false, not, ◌&&◌, ◌||◌, Option, none, some, ◌==◌ as nat_eq,
  if◌then◌else◌,
}
use veyronis.Prelude.Text.{to_lower_case, truthy}
use veyronis.Ethers.{Ethers}
use veyronis.Shared.Agreement.{AgreementMetadata, AgreementLifecycleMode}
use veyronis.Shared.Escrow.{
  EscrowState, awaiting_payment, awaiting_delivery, refund_requested, disputed, complete, refunded,
  cancelled, ParticipantRole, buyer, seller, arbitrator, is_buyer, is_arbitrator,
  is_terminal_escrow_state,
}
use veyronis.Shared.Chain.{
  AgreementChainSnapshot, AgreementDiscoveryItem, AgreementConditionStatus, verified,
}
use veyronis.Condition.{AgreementConditionVerification}
use veyronis.Condition.Repository.{is_status}
use veyronis.Dashboard.{is_blockchain_only, is_state, metadata_mode}
use text.Mathlib.Text.{◌==◌}

pub record AgreementDashboardItem : Type 0 where
  pub metadata : AgreementMetadata
  pub role : ParticipantRole
  pub chain : Option AgreementChainSnapshot

-- The text of a state.
abbrev pub state_name : EscrowState → String
state_name awaiting_payment = "AwaitingPayment"
state_name awaiting_delivery = "AwaitingDelivery"
state_name refund_requested = "RefundRequested"
state_name disputed = "Disputed"
state_name complete = "Complete"
state_name refunded = "Refunded"
state_name cancelled = "Cancelled"

is_closed_state : EscrowState → Bool
is_closed_state s = is_state complete s || is_state refunded s || is_state cancelled s

chain_is : (EscrowState → Bool) → Option AgreementChainSnapshot → Bool
chain_is test none = false
chain_is test (some chain) = test chain.state

unfoldable pub is_closed_agreement : AgreementDashboardItem → Bool
unfolding is_closed_state chain_is
is_closed_agreement item = chain_is is_closed_state item.chain

has_verified : Option AgreementConditionStatus → Bool
has_verified none = false
has_verified (some status) = is_status verified status

unfoldable pub status_of : Option AgreementConditionVerification → Option AgreementConditionStatus
status_of none = none
status_of (some v) = some v.status

module _ (e : Ethers) where
  display_on :
      AgreementMetadata → Option AgreementChainSnapshot → Option AgreementConditionStatus → String
  unfolding has_verified
  display_on m none status = "Not deployed"
  display_on m (some chain) status =
      if is_blockchain_only (metadata_mode e m) && is_state awaiting_delivery chain.state
      then "Verification Pending"
      else if is_blockchain_only (metadata_mode e m)
          && is_state complete chain.state
          && has_verified status
      then "Verified on-chain / Payment unlocked"
      else state_name chain.state

  unfoldable pub agreement_display_status :
      AgreementDashboardItem → Option AgreementConditionVerification → String
  unfolding display_on status_of
  agreement_display_status item verification =
      display_on item.metadata item.chain (status_of verification)

action_on : ParticipantRole → Bool → Option AgreementChainSnapshot → String
action_on role closed none = "Open Agreement"
action_on role closed (some chain) =
    if is_buyer role && is_state awaiting_payment chain.state
    then "Fund Contract"
    else if is_arbitrator role && is_state disputed chain.state
    then "Review Dispute"
    else if closed
    then "View History"
    else "Open Escrow"

unfoldable pub agreement_action : AgreementDashboardItem → String
unfolding action_on is_closed_agreement
agreement_action item = action_on item.role (is_closed_agreement item) item.chain

role_in : AgreementDiscoveryItem → Option String → Option ParticipantRole
role_in item none = none
role_in item (some address) =
    if to_lower_case item.buyer == to_lower_case address
    then some buyer
    else if to_lower_case item.seller == to_lower_case address
    then some seller
    else if to_lower_case item.arbitrator == to_lower_case address
    then some arbitrator
    else none

unfoldable pub role_for_discovery_agreement :
    AgreementDiscoveryItem → Option String → Option ParticipantRole
unfolding role_in
role_for_discovery_agreement item wallet_address = role_in item (truthy wallet_address)

unfoldable pub discovery_display_status : AgreementDiscoveryItem → String
unfolding has_verified
discovery_display_status item =
    if is_blockchain_only item.lifecycle && is_state awaiting_delivery item.state
    then "Verification Pending"
    else if is_blockchain_only item.lifecycle
        && is_state complete item.state
        && has_verified item.verification_status
    then "Verified on-chain / Payment unlocked"
    else state_name item.state

unfoldable pub discovery_action : AgreementDiscoveryItem → Option ParticipantRole → String
discovery_action item none = "Read only"
discovery_action item (some role) =
    if is_buyer role && is_state awaiting_payment item.state
    then "Fund Contract"
    else if is_arbitrator role && is_state disputed item.state
    then "Review Dispute"
    else if is_terminal_escrow_state item.state
    then "View History"
    else "Open Escrow"
