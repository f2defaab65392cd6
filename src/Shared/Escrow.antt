-- ===== src/Shared/Escrow.antt =====
-- Escrow states, participant roles and the withdrawal rule of packages/shared/src/index.ts.
use veyronis.Prelude.{ℕ, String, Bool, true, false, ◌&&◌, Option, none, some, ltb}
use veyronis.Prelude.BigInt.{ℤ, pos, negsuc, parse_big_int}

pub data EscrowState : Type 0 where
  awaiting_payment awaiting_delivery refund_requested disputed complete refunded cancelled :
      EscrowState

pub data ParticipantRole : Type 0 where
  buyer seller arbitrator : ParticipantRole

pub data AgreementAction : Type 0 where
  deposit cancel confirm_delivery request_refund approve_refund open_dispute resolve_release
        resolve_refund withdraw :
      AgreementAction

-- `terminalEscrowStates.has(state)`.
unfoldable pub is_terminal_escrow_state : EscrowState → Bool
is_terminal_escrow_state complete = true
is_terminal_escrow_state refunded = true
is_terminal_escrow_state cancelled = true
is_terminal_escrow_state _ = false

-- `state === "AwaitingPayment"` and the like.
abbrev pub is_buyer : ParticipantRole → Bool
is_buyer buyer = true
is_buyer _ = false

abbrev pub is_seller : ParticipantRole → Bool
is_seller seller = true
is_seller _ = false

abbrev pub is_arbitrator : ParticipantRole → Bool
is_arbitrator arbitrator = true
is_arbitrator _ = false

abbrev pub state_code : EscrowState → ℕ
state_code awaiting_payment = 0
state_code awaiting_delivery = 1
state_code refund_requested = 2
state_code disputed = 3
state_code complete = 4
state_code refunded = 5
state_code cancelled = 6

-- The argument is a text or a bigint.
pub data WithdrawalAmount : Type 0 where
  text : String → WithdrawalAmount
  big : ℤ → WithdrawalAmount

abbrev pub amount_value : WithdrawalAmount → Option ℤ
amount_value (text s) = parse_big_int s
amount_value (big n) = some n

positive : Option ℤ → Bool
positive none = false
positive (some (pos n)) = ltb 0 n
positive (some (negsuc n)) = false

role_may_withdraw : ParticipantRole → EscrowState → Bool
role_may_withdraw seller complete = true
role_may_withdraw buyer refunded = true
role_may_withdraw _ _ = false

unfoldable pub can_withdraw_escrow_funds : ParticipantRole → EscrowState → WithdrawalAmount → Bool
unfolding positive role_may_withdraw
can_withdraw_escrow_funds role state withdrawal =
    positive (amount_value withdrawal) && role_may_withdraw role state
