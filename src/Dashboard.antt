-- ===== src/Dashboard.antt =====
-- backend/src/agreements/dashboard-service.ts: what a participant sees of an agreement and which
-- actions the dashboard offers. The chain reader and the repositories are records of functions;
-- `none` is a call that throws.
pub mod Actions
pub mod Reconciliation
pub mod Snapshot
pub mod Service
pub mod Listing
pub mod Examples
use veyronis.Prelude.{
  ℕ, String, ◌≡◌, Bool, true, false, not, ◌&&◌, ◌||◌, Option, none, some, List, [], ◌∷◌, ◌++◌,
  ◌==◌ as nat_eq, if◌then◌else◌, is_some, any,
}
use veyronis.Prelude.BigInt.{ℤ, parse_big_int}
use veyronis.Ethers.{Ethers}
use veyronis.Shared.Policy.{external_blockchain_condition_from_policy}
use veyronis.Shared.Agreement.{
  AgreementMetadata, AgreementLifecycleMode, blockchain_condition_only, application_work_evidence,
  hybrid, agreement_lifecycle_mode, has_application_evidence_requirements,
}
use veyronis.Shared.Escrow.{
  EscrowState, awaiting_payment, awaiting_delivery, refund_requested, disputed, ParticipantRole,
  buyer, seller, arbitrator, AgreementAction, deposit, cancel, confirm_delivery, request_refund,
  approve_refund, open_dispute, resolve_release, resolve_refund, withdraw, WithdrawalAmount, big,
  can_withdraw_escrow_funds, is_buyer, is_seller, is_arbitrator, state_code,
  is_terminal_escrow_state,
}
use veyronis.Shared.Chain.{
  AgreementChainSnapshot, AgreementDiscoveryItem, AgreementConditionStatus, pending, live, closed,
}
use text.Mathlib.Text.{◌==◌}

abbrev pub is_blockchain_only : AgreementLifecycleMode → Bool
is_blockchain_only blockchain_condition_only = true
is_blockchain_only _ = false

-- `if (test) actions.push(...added)`.
abbrev pub push : Bool → List AgreementAction → List AgreementAction → List AgreementAction
push test added actions = if test then actions ++ added else actions

-- `state === expected`.
abbrev pub is_state : EscrowState → EscrowState → Bool
is_state expected s = nat_eq (state_code s) (state_code expected)

blockchain_actions : ParticipantRole → EscrowState → Bool → List AgreementAction
blockchain_actions role state may_withdraw =
    push may_withdraw (withdraw ∷ [])
      (push (is_buyer role && is_state awaiting_payment state) (deposit ∷ cancel ∷ []) [])

work_actions : ParticipantRole → EscrowState → Bool → List AgreementAction
work_actions role state may_withdraw =
    let a1 = push (is_buyer role && is_state awaiting_payment state) (deposit ∷ cancel ∷ []) [] in
    let a2 =
      push (is_buyer role && is_state awaiting_delivery state)
        (confirm_delivery ∷ request_refund ∷ open_dispute ∷ []) a1 in
    let a3 = push (is_seller role && is_state awaiting_delivery state) (open_dispute ∷ []) a2 in
    let a4 =
      push (is_seller role && is_state refund_requested state) (approve_refund ∷ open_dispute ∷ [])
        a3 in
    let a5 = push (is_buyer role && is_state refund_requested state) (open_dispute ∷ []) a4 in
    let a6 =
      push (is_arbitrator role && is_state disputed state) (resolve_release ∷ resolve_refund ∷ [])
        a5 in
    push may_withdraw (withdraw ∷ []) a6

unfoldable pub actions_for :
    ParticipantRole → EscrowState → ℤ → AgreementLifecycleMode → List AgreementAction
unfolding blockchain_actions work_actions
actions_for role state withdrawal lifecycle =
    if is_blockchain_only lifecycle
    then blockchain_actions role state (can_withdraw_escrow_funds role state (big withdrawal))
    else work_actions role state (can_withdraw_escrow_funds role state (big withdrawal))

abbrev pub metadata_mode : Ethers → AgreementMetadata → AgreementLifecycleMode
metadata_mode e m = agreement_lifecycle_mode e (some m.agreement_mode) m.deliverables m.policy

unfoldable pub metadata_for_participant : Ethers → AgreementMetadata → AgreementMetadata
unfolding agreement_lifecycle_mode
metadata_for_participant e m =
    if not (is_blockchain_only (metadata_mode e m))
    then m
    else if not (is_some m.deliverables)
    then m
    else record m { terms = record m.terms { deliverables = some [] } }
