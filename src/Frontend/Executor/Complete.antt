-- ===== src/Frontend/Executor/Complete.antt =====
-- When frontend/app/transaction-executor.ts reports that a transaction is complete.
use veyronis.Prelude.{
  ℕ, String, ◌≡◌, refl, ap, Bool, true, false, Option, none, some, ==_iff, Bool-cases, inl, inr,
}
use veyronis.Frontend.Executor.{
  is_complete, complete, idle, awaiting_wallet_signature, confirming, TransactionReceiptInfo,
  Outcome, answered, thrown, MinedReceipt, WalletReconciliationResult, nothing, reconciled, pending,
  WalletTransaction, Updates, is_rejection, is_success, classify_submission_error, bare, base_of,
  confirmed_of, after_reconcile, after_confirmations, after_receipt, after_wait, after_submit,
  execute_wallet_transaction, latest,
}

abbrev pub is_pending : WalletReconciliationResult → Bool
is_pending (pending m) = true
is_pending _ = false

module _ {World : Type 0} (tx : WalletTransaction World) where
  -- The reconciliation was reached in this world, and did not find the transaction pending.
  pub record Settled : Type 0 where
    pub at : World
    pub result : WalletReconciliationResult
    pub answer : (tx.reconcile at).0 ≡ answered result
    pub settled : is_pending result ≡ false

  -- In this world, the transaction was found mined, and had succeeded.
  pub record Mined (at : World) : Type 0 where
    pub receipt : MinedReceipt
    pub mined : (tx.wait at).0 ≡ answered (some receipt)
    pub succeeded : receipt.status ≡ some 1

  ends : Updates → Bool
  ends us = is_complete (latest (bare idle) us).status

  after_reconcile-Settled :
      (r : TransactionReceiptInfo) (w : World) (o : Outcome WalletReconciliationResult)
      → (tx.reconcile w).0 ≡ o
      → is_complete (after_reconcile tx r o).status ≡ true
      → Settled
  unfolding after_reconcile
  after_reconcile-Settled r w (answered (pending m)) e h = cc
  after_reconcile-Settled r w (answered nothing) e h = record {
    at = w;
    result = nothing;
    answer = e;
    settled = refl;
  }
  after_reconcile-Settled r w (answered reconciled) e h = record {
    at = w;
    result = reconciled;
    answer = e;
    settled = refl;
  }
  after_reconcile-Settled r w (thrown t) e h = cc

  after_confirmations-Settled :
      (base first : TransactionReceiptInfo) (block : ℕ) (o : Outcome ℕ) (w : World)
      → is_complete (latest first (after_confirmations tx base block o w).0).status ≡ true
      → Settled
  unfolding after_confirmations latest
  after_confirmations-Settled base first block (thrown t) w h = cc
  after_confirmations-Settled base first block (answered n) w h =
      after_reconcile-Settled (confirmed_of tx base block n) w (tx.reconcile w).0 refl h

  is_success-eq : (o : Option ℕ) → is_success tx o ≡ true → o ≡ some 1
  is_success-eq none h = cc
  is_success-eq (some n) h = ap some ((==_iff n 1).0 h)

  after_receipt-Settled :
      (base first : TransactionReceiptInfo) (r : Option MinedReceipt) (before w : World)
      → (tx.wait before).0 ≡ answered r
      → is_complete (latest first (after_receipt tx base r w).0).status ≡ true
      → Mined before × Settled
  unfolding after_receipt latest
  after_receipt-Settled base first none before w e h = cc
  after_receipt-Settled base first (some r) before w e h =
      elim (Bool-cases (is_success tx r.status)) [
        | inl t ↦ (
          record { receipt = r; mined = e; succeeded = is_success-eq r.status t },
          after_confirmations-Settled base first r.block_number _ _ (rw t at h),
        )
        | inr f ↦ let k = rw f at h in cc
      ]

  after_wait-Settled :
      (base first : TransactionReceiptInfo) (o : Outcome (Option MinedReceipt)) (before w : World)
      → (tx.wait before).0 ≡ o
      → is_complete (latest first (after_wait tx base o w).0).status ≡ true
      → Mined before × Settled
  unfolding after_wait latest
  after_wait-Settled base first (answered r) before w e h =
      after_receipt-Settled base first r before w e h
  after_wait-Settled base first (thrown t) before w e h = cc

  after_submit-Settled :
      (first : TransactionReceiptInfo) (o : Outcome String) (w : World)
      → is_complete (latest first (after_submit tx o w).0).status ≡ true
      → (hash : String) × (o ≡ answered hash) × Mined w × Settled
  unfolding after_submit latest classify_submission_error
  after_submit-Settled first (thrown t) w h = elim (Bool-cases (is_rejection t.code)) [
    | inl k ↦ let r = rw k at h in cc
    | inr k ↦ let r = rw k at h in cc
  ]
  after_submit-Settled first (answered hash) w h =
      let (mined, settled) =
        after_wait-Settled (base_of tx hash confirming) (base_of tx hash confirming) (tx.wait w).0 w
          (tx.wait w).1 refl h in
      (hash, refl, mined, settled)

  pub execute_wallet_transaction-Settled :
      (w : World)
      → (latest (bare idle) (execute_wallet_transaction tx w).0).status ≡ complete
      → (hash : String) × ((tx.submit w).0 ≡ answered hash) × Mined (tx.submit w).1 × Settled
  unfolding execute_wallet_transaction latest
  execute_wallet_transaction-Settled w h =
      after_submit-Settled (bare awaiting_wallet_signature) (tx.submit w).0 (tx.submit w).1
        (ap is_complete h)
