-- ===== src/Contract.antt =====
-- The escrow contract contracts/src/VeyronisEscrow.sol, as far as the backend depends on it: its
-- storage, the guards of its functions and what they write. Addresses and bytes32 values are
-- numbers, `none` is a revert, events are left out. `balance` is the Ether that the contract
-- holds; the call that `withdraw` makes succeeds or not by its argument.
pub mod Funds
pub mod Examples
use veyronis.Prelude.{
  ℕ, ◌+◌, ◌-◌, ◌^◌, Bool, true, false, not, ◌&&◌, ◌||◌, Option, none, some, leb, ◌==◌,
  if◌then◌else◌,
}
use veyronis.Shared.Escrow.{
  EscrowState, awaiting_payment, awaiting_delivery, refund_requested, disputed, complete, refunded,
  cancelled, state_code,
}

pub record Terms : Type 0 where
  pub buyer : ℕ
  pub seller : ℕ
  pub arbitrator : ℕ
  pub evidence_registry : ℕ
  pub agreement_commitment : ℕ
  pub evidence_policy_commitment : ℕ
  pub required_amount : ℕ
  pub direct_condition_settlement : Bool

pub record Escrow : Type 0 where
  pub state : EscrowState
  pub deposited_amount : ℕ
  pub active_evidence_commitment : ℕ
  pub verified_claim_id : ℕ
  pub withdrawals : ℕ → ℕ
  pub balance : ℕ

-- The storage after the constructor.
abbrev pub created : Escrow
created = record {
  state = awaiting_payment;
  deposited_amount = 0;
  active_evidence_commitment = 0;
  verified_claim_id = 0;
  withdrawals = λ a. 0;
  balance = 0;
}

unfoldable pub constructor_accepts : Terms → Bool
constructor_accepts t =
    not (t.buyer == 0 || t.seller == 0 || t.arbitrator == 0)
    && not (t.buyer == t.seller || t.buyer == t.arbitrator || t.seller == t.arbitrator)
    && not (t.agreement_commitment == 0)
    && not (t.evidence_policy_commitment == 0)
    && not (t.required_amount == 0)
    && not (t.evidence_registry == 0)

abbrev pub in_state : EscrowState → EscrowState → Bool
in_state expected s = state_code s == state_code expected

-- A write to the mapping `withdrawals`.
abbrev pub write : ℕ → ℕ → (ℕ → ℕ) → ℕ → ℕ
write a v m b = if b == a then v else m b

-- `_credit`; the sum reverts above 256 bits.
unfoldable pub credit : ℕ → Escrow → Option Escrow
credit recipient s =
    if leb (2 ^ 256) (s.withdrawals recipient + s.deposited_amount)
    then none
    else some (record s {
      deposited_amount = 0;
      withdrawals = write recipient (s.withdrawals recipient + s.deposited_amount) s.withdrawals;
    })

pub data Resolution : Type 0 where
  release_to_seller refund_buyer : Resolution

-- The functions of the contract, with their arguments.
pub data Method : Type 0 where
  deposit : (value : ℕ) → Method
  cancel confirm_delivery approve_refund : Method
  request_refund open_dispute : (evidence_commitment : ℕ) → Method
  record_verified_evidence settle_verified_condition record_verified_condition :
      (claim_id evidence_commitment : ℕ) → Method
  resolve_dispute : Resolution → Method
  withdraw : (success : Bool) → Method

-- The modifiers and checks of each function, before it writes.
unfoldable pub guards : Terms → ℕ → Method → Escrow → Bool
guards t sender (deposit value) s =
    sender == t.buyer && in_state awaiting_payment s.state && value == t.required_amount
guards t sender cancel s = sender == t.buyer && in_state awaiting_payment s.state
guards t sender confirm_delivery s =
    sender == t.buyer && in_state awaiting_delivery s.state && not t.direct_condition_settlement
guards t sender approve_refund s = sender == t.seller && in_state refund_requested s.state
guards t sender (request_refund evidence) s =
    sender == t.buyer && in_state awaiting_delivery s.state && not (evidence == 0)
guards t sender (open_dispute evidence) s =
    (sender == t.buyer || sender == t.seller)
    && (in_state awaiting_delivery s.state || in_state refund_requested s.state)
    && not (evidence == 0)
guards t sender (record_verified_evidence claim evidence) s =
    in_state disputed s.state
    && sender == t.evidence_registry
    && not (claim == 0 || evidence == 0)
    && evidence == s.active_evidence_commitment
    && s.verified_claim_id == 0
guards t sender (settle_verified_condition claim evidence) s =
    in_state awaiting_delivery s.state
    && sender == t.evidence_registry
    && t.direct_condition_settlement
    && not (claim == 0 || evidence == 0)
    && s.active_evidence_commitment == 0
    && s.verified_claim_id == 0
guards t sender (record_verified_condition claim evidence) s =
    in_state awaiting_delivery s.state
    && sender == t.evidence_registry
    && not t.direct_condition_settlement
    && not (claim == 0 || evidence == 0)
    && s.active_evidence_commitment == 0
    && s.verified_claim_id == 0
guards t sender (resolve_dispute resolution) s = sender == t.arbitrator && in_state disputed s.state
guards t sender (withdraw success) s = not (s.withdrawals sender == 0) && success

resolve : Terms → Resolution → Escrow → Option Escrow
unfolding credit
resolve t refund_buyer s = credit t.buyer (record s { state = refunded })
resolve t release_to_seller s = credit t.seller (record s { state = complete })

-- What each function writes once its checks have passed.
unfoldable pub effect : Terms → ℕ → Method → Escrow → Option Escrow
unfolding credit resolve
effect t sender (deposit value) s =
    some (record s {
      deposited_amount = value;
      state = awaiting_delivery;
      balance = s.balance + value;
    })
effect t sender cancel s = some (record s { state = cancelled })
effect t sender confirm_delivery s = credit t.seller (record s { state = complete })
effect t sender approve_refund s = credit t.buyer (record s { state = refunded })
effect t sender (request_refund evidence) s =
    some (record s { state = refund_requested; active_evidence_commitment = evidence })
effect t sender (open_dispute evidence) s =
    some (record s { state = disputed; active_evidence_commitment = evidence })
effect t sender (record_verified_evidence claim evidence) s =
    some (record s { verified_claim_id = claim })
effect t sender (settle_verified_condition claim evidence) s = credit t.seller (record s {
  active_evidence_commitment = evidence;
  verified_claim_id = claim;
  state = complete;
})
effect t sender (record_verified_condition claim evidence) s =
    some (record s { verified_claim_id = claim })
effect t sender (resolve_dispute resolution) s = resolve t resolution s
effect t sender (withdraw success) s = some (record s {
  withdrawals = write sender 0 s.withdrawals;
  balance = s.balance - s.withdrawals sender;
})

-- One call of the contract by an account.
unfoldable pub call : Terms → ℕ → Method → Escrow → Option Escrow
call t sender m s = if guards t sender m s then effect t sender m s else none
