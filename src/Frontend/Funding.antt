-- ===== src/Frontend/Funding.antt =====
-- frontend/app/escrow/escrow-funding.ts, with the network check of
-- frontend/app/transaction-network-guard.ts and the names of frontend/app/network-label.ts. The
-- wallet, the contract and the backend answer or throw in any way over a world of any type. What
-- `validateEscrowFunding` returns is the failure here, and so is what `fundEscrow` throws.
pub mod Conditions
pub mod Funded
pub mod Guards
pub mod Examples
use veyronis.Prelude.{
  ℕ, suc, String, Bool, true, false, not, ◌&&◌, ◌||◌, Option, none, some, ltb, ◌==◌, if◌then◌else◌,
  is_some,
}
use Prim.Native.String.{◌++◌}
use veyronis.Prelude.Text.{to_lower_case, truthy}
use veyronis.Prelude.Text.Decimal.{decimal}
use veyronis.Prelude.BigInt.{ℤ, pos, negsuc, parse_big_int}
use veyronis.Prelude.Flow.{Flow, next, failed}
use veyronis.Prelude.Flow
use veyronis.Prelude.Flow.Run.{Run, lift, pure, ◌>>=◌, ◌>>◌}
use veyronis.Shared.Chain.{AgreementChainSnapshot}
use veyronis.Shared.Escrow.{
  EscrowState, awaiting_payment, awaiting_delivery, refund_requested, disputed, complete, refunded,
  cancelled, state_code, ParticipantRole, is_buyer,
}
use veyronis.Frontend.Executor.{
  TransactionReceiptInfo, Outcome, answered, thrown, Thrown, other, Calling, MinedReceipt,
  WalletReconciliationResult, reconciled, pending, WalletTransaction, Updates, bare, idle, latest,
  execute_wallet_transaction,
}
use text.Mathlib.Text as Text

unfoldable pub get_network_name : ℕ → String
get_network_name chain_id =
    if chain_id == 11155111
    then "Sepolia"
    else if chain_id == 31337
    then "Anvil Local"
    else "Unsupported Network"

is_text : String → Option String → Bool
is_text s none = false
is_text s (some t) = Text.◌==◌ t s

-- By the two settings of the build.
unfoldable pub required_transaction_chain_id : Option String → Option String → ℕ
unfolding is_text
required_transaction_chain_id configured_chain_id local_development =
    if is_text "true" local_development && is_text "31337" configured_chain_id
    then 31337
    else 11155111

is_number : ℕ → Option ℕ → Bool
is_number n none = false
is_number n (some m) = m == n

unfoldable pub transaction_network_error : Option ℕ → ℕ → Flow String (Unit {0})
unfolding get_network_name is_number
transaction_network_error wallet_chain_id required =
    Flow.require (is_number required wallet_chain_id)
      ("Wrong network. Switch your wallet to " ++ (get_network_name required ++ " to continue."))

pub record FundingDetails : Type 0 where
  pub role : ParticipantRole
  pub chain : Option AgreementChainSnapshot

pub record EscrowFundingChecks : Type 0 where
  pub wallet_address : Option String
  pub wallet_chain_id : Option ℕ
  pub details : Option FundingDetails
  pub balance : Option ℕ

state_name : EscrowState → String
state_name awaiting_payment = "AwaitingPayment"
state_name awaiting_delivery = "AwaitingDelivery"
state_name refund_requested = "RefundRequested"
state_name disputed = "Disputed"
state_name complete = "Complete"
state_name refunded = "Refunded"
state_name cancelled = "Cancelled"

is_wallet_of : String → Option String → Bool
is_wallet_of buyer none = false
is_wallet_of buyer (some wallet) = Text.◌==◌ (to_lower_case wallet) (to_lower_case buyer)

unfoldable pub is_funding_wallet : Option String → FundingDetails → AgreementChainSnapshot → Bool
unfolding is_wallet_of
is_funding_wallet wallet details chain =
    is_buyer details.role && is_wallet_of chain.buyer (truthy wallet)

-- The required amount where it is a positive number.
unfoldable pub positive_amount : Option ℤ → Flow String ℕ
positive_amount (some (pos (suc n))) = next (suc n)
positive_amount _ = failed "The escrow required amount is invalid."

affords : ℕ → Option ℕ → Bool
affords amount none = true
affords amount (some balance) = not (ltb balance amount)

-- The checks of a chain snapshot, with the amount to deposit as the result.
unfoldable pub validate_chain :
    ℕ → EscrowFundingChecks → FundingDetails → AgreementChainSnapshot → Flow String ℕ
unfolding transaction_network_error is_funding_wallet positive_amount affords state_name
validate_chain required_chain checks details chain =
    Flow.◌>>◌ (transaction_network_error checks.wallet_chain_id required_chain) (
      Flow.◌>>◌
        (Flow.require (is_funding_wallet checks.wallet_address details chain)
          "Only the agreement buyer can fund this escrow.")
        (Flow.◌>>◌
          (Flow.require (state_code chain.state == state_code awaiting_payment)
            ("Funding is unavailable while the escrow is " ++ (state_name chain.state ++ ".")))
          (Flow.◌>>=◌ (positive_amount (parse_big_int chain.required_amount)) (λ amount.
            Flow.◌>>◌
              (Flow.require (affords amount checks.balance)
                "Wallet balance is insufficient to fund this escrow.")
              (next amount)))))

abbrev no_escrow : String
no_escrow = "A deployed escrow address is required before funding."

unfoldable pub validate_snapshot :
    ℕ
    → EscrowFundingChecks
    → FundingDetails
    → Option AgreementChainSnapshot
    → Flow String (AgreementChainSnapshot × ℕ)
unfolding validate_chain
validate_snapshot required_chain checks details none = failed no_escrow
validate_snapshot required_chain checks details (some chain) =
    if is_some (truthy (some chain.escrow_address))
    then Flow.◌>>=◌ (validate_chain required_chain checks details chain)
        (λ amount. next (chain, amount))
    else failed no_escrow

unfoldable pub validate_details :
    ℕ → EscrowFundingChecks → Option FundingDetails → Flow String (AgreementChainSnapshot × ℕ)
unfolding validate_snapshot
validate_details required_chain checks none = failed no_escrow
validate_details required_chain checks (some details) =
    validate_snapshot required_chain checks details details.chain

-- `validateEscrowFunding`, with the snapshot and the amount that passed.
unfoldable pub validate_escrow_funding :
    ℕ → EscrowFundingChecks → Flow String (AgreementChainSnapshot × ℕ)
unfolding validate_details
validate_escrow_funding required_chain checks =
    validate_details required_chain checks checks.details

-- `readFundingState`.
pub record FundingState : Type 0 where
  pub state : ℕ
  pub deposited_amount : ℕ
  pub required_amount : ℕ

pub record FundingServices (World : Type 0) : Type 0 where
  -- The provider, its signer and the signer's address.
  pub signer_address : Calling World String
  pub get_balance : String → Calling World ℕ
  pub chain_id : Calling World ℕ
  -- The calls of the contract at an address; a deposit answers its transaction's hash.
  pub read_funding_state : String → Calling World FundingState
  pub deposit : String → ℕ → Calling World String
  pub wait : Calling World (Option MinedReceipt)
  pub receipt_confirmations : Calling World ℕ
  pub reconcile : Calling World (Option FundingDetails)
  pub explorer_transaction_url : ℕ → String → Option String

abbrev pub an_error : String → Thrown
an_error message = record { code = other; message = some message }

-- The contract awaits this deposit.
unfoldable pub check_funding_state : FundingState → ℕ → Flow Thrown (Unit {0})
check_funding_state s amount =
    Flow.◌>>◌
      (Flow.require (s.state == 0)
        (an_error "Funding is unavailable because the escrow is not awaiting payment."))
      (Flow.◌>>◌
        (Flow.require (s.required_amount == amount)
          (an_error "The escrow required amount does not match agreement metadata."))
        (Flow.require (s.deposited_amount == 0)
          (an_error "The escrow is not awaiting a new deposit.")))

abbrev pub pending_reconciliation : WalletReconciliationResult
pending_reconciliation = pending "Funding submitted, waiting for chain reconciliation."

-- The backend's answer has the deposit.
abbrev pub chain_is_funded : AgreementChainSnapshot → Option AgreementChainSnapshot → Bool
chain_is_funded chain none = false
chain_is_funded chain (some c) =
    state_code c.state == state_code awaiting_delivery
    && Text.◌==◌ c.deposited_amount chain.required_amount

abbrev pub is_reconciled : AgreementChainSnapshot → Option FundingDetails → Bool
is_reconciled chain none = false
is_reconciled chain (some d) = chain_is_funded chain d.chain

unfoldable pub after_backend :
    AgreementChainSnapshot → Outcome (Option FundingDetails) → Outcome WalletReconciliationResult
after_backend chain (thrown t) = answered pending_reconciliation
after_backend chain (answered d) =
    answered (if is_reconciled chain d then reconciled else pending_reconciliation)

abbrev pub is_funded : FundingState → ℕ → Bool
is_funded s amount = s.state == 1 && s.deposited_amount == amount

abbrev of_failed : {A : Type 0} → Flow String A → Flow Thrown A
of_failed (next a) = next a
of_failed (failed message) = failed (an_error message)
of_failed Flow.threw = Flow.threw

of_outcome : {A : Type 0} → Outcome A → Flow Thrown A
of_outcome (answered a) = next a
of_outcome (thrown t) = failed t

module _ {World : Type 0} (services : FundingServices World) where
  unfoldable pub await_call : {A : Type 0} → Calling World A → Run World Thrown A
  unfolding of_outcome
  await_call call w = let (o, v) = call w in (of_outcome o, v)

  unfoldable pub after_funded_state :
      AgreementChainSnapshot
      → ℕ
      → Outcome FundingState
      → World
      → Outcome WalletReconciliationResult × World
  unfolding after_backend
  after_funded_state chain amount (thrown t) w = (thrown t, w)
  after_funded_state chain amount (answered s) w =
      let (o, v) = services.reconcile w in
      if is_funded s amount
      then (after_backend chain o, v)
      else (answered pending_reconciliation, w)

  -- The `reconcile` that the transaction is given.
  unfoldable pub reconcile_funding :
      AgreementChainSnapshot → ℕ → Calling World WalletReconciliationResult
  unfolding after_funded_state
  reconcile_funding chain amount w =
      let (o, v) = services.read_funding_state chain.escrow_address w in
      after_funded_state chain amount o v

  abbrev pub funding_transaction : AgreementChainSnapshot → ℕ → ℕ → WalletTransaction World
  funding_transaction chain amount network = record {
    submit = services.deposit chain.escrow_address amount;
    wait = services.wait;
    receipt_confirmations = services.receipt_confirmations;
    reconcile = reconcile_funding chain amount;
    explorer = services.explorer_transaction_url network;
  }

  unfoldable pub deposit_and_follow :
      AgreementChainSnapshot → ℕ → ℕ → Run World Thrown TransactionReceiptInfo
  unfolding reconcile_funding
  deposit_and_follow chain amount network w =
      let (updates, v) = execute_wallet_transaction (funding_transaction chain amount network) w in
      (next (latest (bare idle) updates), v)

  unfoldable pub fund_escrow : ℕ → FundingDetails → Run World Thrown TransactionReceiptInfo
  unfolding await_call deposit_and_follow
  fund_escrow required_chain details = do
    address ← await_call services.signer_address
    balance ← await_call (services.get_balance address)
    network ← await_call services.chain_id
    checked ← lift (
        of_failed (
          validate_escrow_funding required_chain (record {
            wallet_address = some address;
            wallet_chain_id = some network;
            details = some details;
            balance = some balance;
          })))
    before ← await_call (services.read_funding_state checked.0.escrow_address)
    lift (check_funding_state before checked.1)
    deposit_and_follow checked.0 checked.1 network
