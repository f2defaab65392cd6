-- ===== src/Frontend/Executor/Path.antt =====
-- The updates of frontend/app/transaction-executor.ts beside the state machine of a wallet
-- transaction.
use veyronis.Prelude.{
  ℕ, String, ◌≡◌, refl, Bool, true, false, Option, none, some, [], ◌∷◌, Bool-cases, inl, inr,
}
use veyronis.Frontend.Executor.{
  TransactionStatus, idle, awaiting_wallet_signature, transaction_submitted, confirming, confirmed,
  reconciling, awaiting_reconciliation, complete, user_rejected, transaction_reverted, rpc_error,
  reconciliation_failed, TransactionReceiptInfo, Outcome, answered, thrown, Thrown, MinedReceipt,
  WalletReconciliationResult, nothing, reconciled, pending, WalletTransaction, Updates,
  is_rejection, is_success, classify_submission_error, bare, base_of, confirmed_of, after_reconcile,
  after_confirmations, after_receipt, after_wait, after_submit, execute_wallet_transaction,
}

-- Which status may follow which.
pub data Step : TransactionStatus → TransactionStatus → Type 0 where
  asks : Step idle awaiting_wallet_signature
  rejects : Step awaiting_wallet_signature user_rejected
  fails : Step awaiting_wallet_signature rpc_error
  submits : Step awaiting_wallet_signature transaction_submitted
  waits : Step transaction_submitted confirming
  reverts : Step confirming transaction_reverted
  loses : Step confirming rpc_error
  confirms : Step confirming confirmed
  reconciles : Step confirmed reconciling
  postpones : Step reconciling awaiting_reconciliation
  completes : Step reconciling complete
  breaks : Step reconciling reconciliation_failed

abbrev pub is_terminal : TransactionStatus → Bool
is_terminal awaiting_reconciliation = true
is_terminal complete = true
is_terminal user_rejected = true
is_terminal transaction_reverted = true
is_terminal rpc_error = true
is_terminal reconciliation_failed = true
is_terminal _ = false

-- Updates that follow the machine from a status on and end where nothing can follow.
abbrev pub IsPath : TransactionStatus → Updates → Type 0
IsPath s [] = is_terminal s ≡ true
IsPath s (r ∷ rs) = Step s r.status × IsPath r.status rs

module _ {World : Type 0} (tx : WalletTransaction World) where
  after_reconcile-IsPath :
      (r : TransactionReceiptInfo) (o : Outcome WalletReconciliationResult)
      → IsPath reconciling (after_reconcile tx r o ∷ [])
  unfolding after_reconcile
  after_reconcile-IsPath r (answered (pending message)) = (postpones, refl)
  after_reconcile-IsPath r (answered nothing) = (completes, refl)
  after_reconcile-IsPath r (answered reconciled) = (completes, refl)
  after_reconcile-IsPath r (thrown t) = (breaks, refl)

  after_confirmations-IsPath :
      (base : TransactionReceiptInfo) (block : ℕ) (o : Outcome ℕ) (w : World)
      → IsPath confirming (after_confirmations tx base block o w).0
  unfolding after_confirmations
  after_confirmations-IsPath base block (thrown t) w = (loses, refl)
  after_confirmations-IsPath base block (answered n) w = (
    confirms,
    (reconciles, after_reconcile-IsPath (confirmed_of tx base block n) (tx.reconcile w).0),
  )

  after_receipt-IsPath :
      (base : TransactionReceiptInfo) (r : Option MinedReceipt) (w : World)
      → IsPath confirming (after_receipt tx base r w).0
  unfolding after_receipt
  after_receipt-IsPath base none w = (reverts, refl)
  after_receipt-IsPath base (some r) w = elim (Bool-cases (is_success tx r.status)) [
    | inl t ↦ rw t (after_confirmations-IsPath base r.block_number _ _)
    | inr f ↦ rw f (reverts, refl)
  ]

  after_wait-IsPath :
      (base : TransactionReceiptInfo) (o : Outcome (Option MinedReceipt)) (w : World)
      → IsPath confirming (after_wait tx base o w).0
  unfolding after_wait
  after_wait-IsPath base (answered r) w = after_receipt-IsPath base r w
  after_wait-IsPath base (thrown t) w = (loses, refl)

  rejected-IsPath :
      (t : Thrown) → IsPath awaiting_wallet_signature (bare (classify_submission_error t) ∷ [])
  unfolding classify_submission_error
  rejected-IsPath t = elim (Bool-cases (is_rejection t.code)) [
    | inl k ↦ rw k (rejects, refl)
    | inr k ↦ rw k (fails, refl)
  ]

  after_submit-IsPath :
      (o : Outcome String) (w : World) → IsPath awaiting_wallet_signature (after_submit tx o w).0
  unfolding after_submit
  after_submit-IsPath (thrown t) w = rejected-IsPath t
  after_submit-IsPath (answered hash) w =
      (submits, (waits, after_wait-IsPath (base_of tx hash confirming) (tx.wait w).0 (tx.wait w).1))

  -- Whatever the wallet, the node and the reconciliation answer or throw, the updates of a
  -- transaction follow the state machine from its start and end in a status that nothing follows.
  pub execute_wallet_transaction-IsPath :
      (w : World) → IsPath idle (execute_wallet_transaction tx w).0
  unfolding execute_wallet_transaction
  execute_wallet_transaction-IsPath w = (asks, after_submit-IsPath (tx.submit w).0 (tx.submit w).1)
