-- ===== src/Dashboard/Actions.antt =====
-- The actions of backend/src/agreements/dashboard-service.ts beside the calls that the contract
-- contracts/src/VeyronisEscrow.sol accepts.
use veyronis.Prelude.{
  ℕ, ◌≡◌, ◌≢◌, ◌↔◌, Bool, true, false, List, [], ◌∷◌, arith, ◌==◌, if◌then◌else◌,
}
use veyronis.Prelude.BigInt.{pos}
use veyronis.Shared.Agreement.{AgreementLifecycleMode, blockchain_condition_only}
use veyronis.Shared.Escrow.{
  ParticipantRole, buyer, seller, arbitrator, AgreementAction, deposit, cancel, confirm_delivery,
  request_refund, approve_refund, open_dispute, resolve_release, resolve_refund, withdraw,
  can_withdraw_escrow_funds,
}
use veyronis.Contract.{Terms, Escrow, Method, Resolution, guards}
use veyronis.Contract.Funds.{IsSolvent}
use veyronis.Dashboard.{actions_for, is_blockchain_only}

abbrev action_code : AgreementAction → ℕ
action_code deposit = 0
action_code cancel = 1
action_code confirm_delivery = 2
action_code request_refund = 3
action_code approve_refund = 4
action_code open_dispute = 5
action_code resolve_release = 6
action_code resolve_refund = 7
action_code withdraw = 8

-- `actions.includes(action)`.
abbrev pub includes : List AgreementAction → AgreementAction → Bool
includes [] action = false
includes (a ∷ actions) action =
    if action_code a == action_code action then true else includes actions action

-- The account that acts in a role.
abbrev pub account : Terms → ParticipantRole → ℕ
account t buyer = t.buyer
account t seller = t.seller
account t arbitrator = t.arbitrator

-- The call that an action makes, with the evidence given.
abbrev pub method_of : Terms → ℕ → AgreementAction → Method
method_of t evidence deposit = Method.deposit t.required_amount
method_of t evidence cancel = Method.cancel
method_of t evidence confirm_delivery = Method.confirm_delivery
method_of t evidence request_refund = Method.request_refund evidence
method_of t evidence approve_refund = Method.approve_refund
method_of t evidence open_dispute = Method.open_dispute evidence
method_of t evidence resolve_release = Method.resolve_dispute Resolution.release_to_seller
method_of t evidence resolve_refund = Method.resolve_dispute Resolution.refund_buyer
method_of t evidence withdraw = Method.withdraw true

abbrev pub offered :
    Terms → Escrow → ParticipantRole → AgreementLifecycleMode → List AgreementAction
offered t s role lifecycle =
    actions_for role s.state (pos (s.withdrawals (account t role))) lifecycle

abbrev HasDistinctRoles : Terms → Type 0
HasDistinctRoles t = (t.buyer ≢ t.seller) × (t.buyer ≢ t.arbitrator) × (t.seller ≢ t.arbitrator)

-- Outside the blockchain-only mode, and on a contract without direct settlement in a solvent
-- state, the dashboard offers exactly the calls that the contract accepts from the participant.
pub offered_iff :
    (t : Terms) (s : Escrow) (role : ParticipantRole) (lifecycle : AgreementLifecycleMode)
    (evidence : ℕ) (action : AgreementAction)
    → HasDistinctRoles t
    → t.direct_condition_settlement ≡ false
    → is_blockchain_only lifecycle ≡ false
    → evidence ≢ 0
    → IsSolvent t s
    → (includes (offered t s role lifecycle) action ≡ true)
      ↔ (guards t (account t role) (method_of t evidence action) s ≡ true)
unfolding actions_for can_withdraw_escrow_funds guards
offered_iff t s buyer lifecycle evidence action distinct direct mode nonzero solvent =
    ground (arith, solvent.others t.arbitrator)
offered_iff t s seller lifecycle evidence action distinct direct mode nonzero solvent =
    ground (arith, solvent.others t.arbitrator)
offered_iff t s arbitrator lifecycle evidence action distinct direct mode nonzero solvent =
    ground (arith, solvent.others t.arbitrator)

-- In the blockchain-only mode, on a contract in any state, the contract accepts each call that
-- the dashboard offers.
pub offered-guards :
    (t : Terms) (s : Escrow) (role : ParticipantRole) (evidence : ℕ) (action : AgreementAction)
    → includes (offered t s role blockchain_condition_only) action ≡ true
    → guards t (account t role) (method_of t evidence action) s ≡ true
unfolding actions_for can_withdraw_escrow_funds guards
offered-guards t s buyer evidence action h = ground arith
offered-guards t s seller evidence action h = ground arith
offered-guards t s arbitrator evidence action h = ground arith
