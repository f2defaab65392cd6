-- ===== src/Frontend/Status/Agreement.antt =====
-- The two lists of frontend/app/escrow/agreement-status.ts beside each other.
use veyronis.Prelude.{◌≡◌, refl, Option, some, arith}
use veyronis.Ethers.{Ethers}
use veyronis.Shared.Escrow.{EscrowState, is_terminal_escrow_state}
use veyronis.Shared.Chain.{AgreementChainSnapshot, AgreementDiscoveryItem}
use veyronis.Condition.{AgreementConditionVerification}
use veyronis.Dashboard.{metadata_mode}
use veyronis.Frontend.Status.{
  AgreementDashboardItem, agreement_display_status, agreement_action, discovery_display_status,
  discovery_action, display_on, status_of, action_on, chain_is, is_closed_state,
  is_closed_agreement,
}

-- The item of the list of all agreements that says the same of an agreement on the chain.
pub record Describes (e : Ethers) (item : AgreementDashboardItem)
    (verification : Option AgreementConditionVerification) (found : AgreementDiscoveryItem)
    : Type 0 where
  pub snapshot : AgreementChainSnapshot
  pub on_chain : item.chain ≡ some snapshot
  pub state : found.state ≡ snapshot.state
  pub lifecycle : found.lifecycle ≡ metadata_mode e item.metadata
  pub verified : found.verification_status ≡ status_of verification

closed-terminal : (s : EscrowState) → is_closed_state s ≡ is_terminal_escrow_state s
unfolding is_closed_state is_terminal_escrow_state
closed-terminal s = ground arith

-- The two lists show an agreement on the chain with the same status, and its participant with the
-- same action.
pub agreement-discovery :
    (e : Ethers) (item : AgreementDashboardItem)
    (verification : Option AgreementConditionVerification) (found : AgreementDiscoveryItem)
    → Describes e item verification found
    → (agreement_display_status e item verification ≡ discovery_display_status found)
      × (agreement_action item ≡ discovery_action found (some item.role))
unfolding agreement_display_status agreement_action discovery_display_status discovery_action
    display_on action_on is_closed_agreement chain_is
agreement-discovery e item verification found d = (
  rw (d.on_chain, d.state, d.lifecycle, d.verified) refl,
  ground (arith, d.on_chain, d.state, closed-terminal d.snapshot.state),
)
