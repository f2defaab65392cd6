-- ===== src/Frontend/Executor.antt =====
-- frontend/app/transaction-executor.ts: the updates that a wallet transaction reports, in order. The
-- wallet and the node answer or throw in any way over a world of any type; the callback that takes
-- the updates does not throw.
pub mod Path
pub mod Complete
use veyronis.Prelude.{
  ℕ, String, Bool, true, false, ◌||◌, Option, none, some, List, [], ◌∷◌, ◌==◌, if◌then◌else◌,
}
use veyronis.Prelude.Text.{truthy}
use veyronis.Prelude.Text.Decimal.{decimal}
use text.Mathlib.Text as Text

pub data TransactionStatus : Type 0 where
  idle awaiting_wallet_signature transaction_submitted confirming confirmed reconciling
        awaiting_reconciliation complete user_rejected transaction_reverted rpc_error
        reconciliation_failed :
      TransactionStatus

pub record TransactionReceiptInfo : Type 0 where
  pub hash : Option String
  pub status : TransactionStatus
  pub block_number : Option String
  pub confirmations : Option ℕ
  pub error : Option String
  pub message : Option String
  pub explorer_url : Option String

-- The `code` of what was thrown, and its message where it is an `Error`.
pub data ErrorCode : Type 0 where
  numeric : ℕ → ErrorCode
  named : String → ErrorCode
  other : ErrorCode

pub record Thrown : Type 0 where
  pub code : ErrorCode
  pub message : Option String

pub data Outcome (A : Type 0) : Type 0 where
  answered : A → Outcome A
  thrown : Thrown → Outcome A

abbrev pub Calling : Type 0 → Type 0 → Type 0
Calling World A = World → Outcome A × World

pub record MinedReceipt : Type 0 where
  pub status : Option ℕ
  pub block_number : ℕ

-- `WalletReconciliationResult | void`.
pub data WalletReconciliationResult : Type 0 where
  nothing reconciled : WalletReconciliationResult
  pending : String → WalletReconciliationResult

-- The arguments of `executeWalletTransaction`, and the transaction that it submits.
pub record WalletTransaction (World : Type 0) : Type 0 where
  pub submit : Calling World String
  pub wait : Calling World (Option MinedReceipt)
  pub receipt_confirmations : Calling World ℕ
  pub reconcile : Calling World WalletReconciliationResult
  pub explorer : String → Option String

abbrev pub Updates : Type 0
Updates = List TransactionReceiptInfo

unfoldable pub is_rejection : ErrorCode → Bool
is_rejection (numeric n) = n == 4001
is_rejection (named s) = Text.◌==◌ s "ACTION_REJECTED"
is_rejection other = false

unfoldable pub classify_submission_error : Thrown → TransactionStatus
unfolding is_rejection
classify_submission_error t = if is_rejection t.code then user_rejected else rpc_error

unfoldable pub error_message : Option String → String
error_message none = "Wallet transaction failed."
error_message (some message) = message

-- `{ status }`, and the fields that the later updates add.
abbrev pub bare : TransactionStatus → TransactionReceiptInfo
bare status = record {
  hash = none;
  status = status;
  block_number = none;
  confirmations = none;
  error = none;
  message = none;
  explorer_url = none;
}

module _ {World : Type 0} (tx : WalletTransaction World) where
  abbrev pub base_of : String → TransactionStatus → TransactionReceiptInfo
  base_of hash status = record (bare status) {
    hash = some hash;
    explorer_url = truthy (tx.explorer hash);
  }

  abbrev with_error : Thrown → TransactionReceiptInfo → TransactionReceiptInfo
  with_error t r = record r { error = some (error_message t.message) }

  unfoldable pub after_reconcile :
      TransactionReceiptInfo → Outcome WalletReconciliationResult → TransactionReceiptInfo
  unfolding error_message
  after_reconcile r (answered (pending message)) = record r {
    status = awaiting_reconciliation;
    message = some message;
  }
  after_reconcile r (answered nothing) = record r { status = complete }
  after_reconcile r (answered reconciled) = record r { status = complete }
  after_reconcile r (thrown t) = with_error t (record r { status = reconciliation_failed })

  abbrev pub confirmed_of : TransactionReceiptInfo → ℕ → ℕ → TransactionReceiptInfo
  confirmed_of base block n = record base {
    block_number = some (decimal block);
    confirmations = some n;
  }

  unfoldable pub after_confirmations :
      TransactionReceiptInfo → ℕ → Outcome ℕ → World → Updates × World
  unfolding after_reconcile
  after_confirmations base block (thrown t) w =
      (with_error t (record base { status = rpc_error }) ∷ [], w)
  after_confirmations base block (answered n) w =
      let r = confirmed_of base block n in
      let (o, v) = tx.reconcile w in
      (
        record r { status = confirmed }
            ∷ record r { status = reconciling }
            ∷ after_reconcile r o
            ∷ [],
        v,
      )

  abbrev reverted : TransactionReceiptInfo → Updates
  reverted base =
      record base {
        status = transaction_reverted;
        error = some "The transaction reverted on-chain.";
      }
      ∷ []

  abbrev pub is_success : Option ℕ → Bool
  is_success none = false
  is_success (some n) = n == 1

  unfoldable pub after_receipt :
      TransactionReceiptInfo → Option MinedReceipt → World → Updates × World
  unfolding after_confirmations
  after_receipt base none w = (reverted base, w)
  after_receipt base (some r) w =
      let (o, v) = tx.receipt_confirmations w in
      if is_success r.status
      then after_confirmations base r.block_number o v
      else (reverted base, w)

  unfoldable pub after_wait :
      TransactionReceiptInfo → Outcome (Option MinedReceipt) → World → Updates × World
  unfolding after_receipt error_message
  after_wait base (answered r) w = after_receipt base r w
  after_wait base (thrown t) w = (with_error t (record base { status = rpc_error }) ∷ [], w)

  unfoldable pub after_submit : Outcome String → World → Updates × World
  unfolding after_wait classify_submission_error error_message
  after_submit (thrown t) w = (with_error t (bare (classify_submission_error t)) ∷ [], w)
  after_submit (answered hash) w =
      let (o, v) = tx.wait w in
      let (rest, u) = after_wait (base_of hash confirming) o v in
      (base_of hash transaction_submitted ∷ base_of hash confirming ∷ rest, u)

  unfoldable pub execute_wallet_transaction : World → Updates × World
  unfolding after_submit
  execute_wallet_transaction w =
      let (o, v) = tx.submit w in
      let (rest, u) = after_submit o v in (bare awaiting_wallet_signature ∷ rest, u)

-- The last update, where there is one.
unfoldable pub latest : TransactionReceiptInfo → Updates → TransactionReceiptInfo
latest r [] = r
latest r (s ∷ rest) = latest s rest

abbrev pub is_complete : TransactionStatus → Bool
is_complete complete = true
is_complete _ = false
