-- ===== src/Attestcoin/Evaluator/Accepted.antt =====
-- What an accepted transaction is known to be: the result of `evaluate` in
-- source-transaction-interpreter.ts.
use veyronis.Prelude.{
  ℕ, ◌-◌, ◌^◌, ◌≤◌, ◌≡◌, ◌⊎◌, true, arith, filter, sym, List, mem-filter, mem-middle,
}
use veyronis.Prelude.Flow.{next}
use veyronis.Prelude.Text.{big_int}
use veyronis.Prelude.Text.Decimal.{decimal}
use veyronis.Ethers.{Ethers}
use veyronis.Shared.Policy.{AssetKind, native, erc20, EvidencePolicy, evidence_policy_schema}
use veyronis.Attestcoin.{
  VerifiedSourceTransaction, VerifiedSourceLog, InterpretedEvidence, same_address,
}
use veyronis.Attestcoin.Address.{SameAddress, same_address_iff}
use veyronis.Attestcoin.Evaluator.{
  is_transfer, evaluate_native, evaluate_erc20, evaluate_asset, evaluate, sent_to, scan_logs,
}
use veyronis.Attestcoin.Evaluator.Native.{
  AmountSatisfies, SentTo, sent_to_iff, evidence, evaluate_native_iff,
}
use veyronis.Attestcoin.Evaluator.Transfers.{Moves, matching_amount-Moves, scan_logs-eq-next}
use mathlib.Core.Path.{subst}
use mathlib.Core.List.{Memᴰ}
use text.Mathlib.TextEquality.{eq_iff}

module _ (e : Ethers) (tx : VerifiedSourceTransaction) (policy : EvidencePolicy) where
  -- A Transfer event of the policy's token, between its participants, of the reported amount.
  pub record TokenPayment (ev : InterpretedEvidence) : Type 0 where
    pub no_value : big_int tx.value ≡ 0
    pub log : VerifiedSourceLog
    pub listed : Memᴰ log tx.logs
    pub transfer : is_transfer e log ≡ true
    pub token : SameAddress e log.address policy.expected_asset
    pub paid : ℕ
    pub moves : Moves e policy log paid
    pub enough : AmountSatisfies policy.amount_rule paid (big_int policy.amount)
    pub reported : evidence policy (decimal paid) ≡ ev

  -- The value of the transaction itself, sent to the policy's recipient.
  pub record NativePayment (ev : InterpretedEvidence) : Type 0 where
    pub to : SentTo e tx.to policy.expected_recipient
    pub enough : AmountSatisfies policy.amount_rule (big_int tx.value) (big_int policy.amount)
    pub reported : evidence policy tx.value ≡ ev

  abbrev pub Payment : AssetKind → InterpretedEvidence → Type 0
  Payment native ev = NativePayment ev
  Payment erc20 ev = TokenPayment ev

  pub record IsAccepted (ev : InterpretedEvidence) : Type 0 where
    pub schema : evidence_policy_schema policy ≡ true
    pub height : tx.source_block_number ≤ 2 ^ 53 - 1
    pub succeeded : tx.receipt_status ≡ 1
    pub chain : tx.source_chain_key ≡ policy.source_chain_key
    pub sender : SameAddress e tx.from policy.expected_sender
    pub target :
        (policy.expected_source_contract ≡ e.zero_address)
        ⊎ SentTo e tx.to policy.expected_source_contract
    pub not_stale : big_int policy.min_source_block ≤ tx.source_block_number
    pub not_late :
        (big_int policy.max_source_block ≡ 0)
        ⊎ (tx.source_block_number ≤ big_int policy.max_source_block)
    pub payment : Payment policy.asset_kind ev

  evaluate_native-NativePayment :
      (ev : InterpretedEvidence) → evaluate_native e tx policy ≡ next ev → NativePayment ev
  evaluate_native-NativePayment ev h =
      let (to, enough, reported) = (evaluate_native_iff e tx policy ev).0 h in
      record { to = to; enough = enough; reported = reported }

  abbrev asset_logs : List VerifiedSourceLog
  asset_logs =
      filter (λ log. same_address e log.address policy.expected_asset)
        (filter (is_transfer e) tx.logs)

  evaluate_erc20-steps :
      (ev : InterpretedEvidence)
      → evaluate_erc20 e tx policy ≡ next ev
      → (big_int tx.value ≡ 0) × (scan_logs e policy asset_logs ≡ next ev)
  unfolding evaluate_erc20
  evaluate_erc20-steps ev h = ground arith

  evaluate_erc20-TokenPayment :
      (ev : InterpretedEvidence) → evaluate_erc20 e tx policy ≡ next ev → TokenPayment ev
  evaluate_erc20-TokenPayment ev h =
      let (value, scanned) = evaluate_erc20-steps ev h in
      let (paid, stop, enough, reported) = scan_logs-eq-next e policy asset_logs ev scanned in
      let m : Memᴰ stop.log asset_logs =
        subst (Memᴰ stop.log) (sym stop.split) (mem-middle stop.before stop.log stop.after) in
      let (inner, token) = mem-filter _ (filter (is_transfer e) tx.logs) m in
      let (listed, transfer) = mem-filter (is_transfer e) tx.logs inner in
      record {
        no_value = value;
        log = stop.log;
        listed = listed;
        transfer = transfer;
        token = (same_address_iff e stop.log.address policy.expected_asset).0 token;
        paid = paid;
        moves = matching_amount-Moves e policy stop.log paid stop.moves;
        enough = enough;
        reported = reported;
      }

  evaluate_asset-Payment :
      (k : AssetKind) (ev : InterpretedEvidence)
      → evaluate_asset e k tx policy ≡ next ev
      → Payment k ev
  unfolding evaluate_asset
  evaluate_asset-Payment native ev h = evaluate_native-NativePayment ev h
  evaluate_asset-Payment erc20 ev h = evaluate_erc20-TokenPayment ev h

  evaluate-steps :
      (ev : InterpretedEvidence)
      → evaluate e tx policy ≡ next ev
      → (evidence_policy_schema policy ≡ true)
        × (tx.source_block_number ≤ 2 ^ 53 - 1)
        × (tx.receipt_status ≡ 1)
        × (tx.source_chain_key ≡ policy.source_chain_key)
        × (same_address e tx.from policy.expected_sender ≡ true)
        × ((policy.expected_source_contract ≡ e.zero_address)
            ⊎ (sent_to e tx.to policy.expected_source_contract ≡ true))
        × (big_int policy.min_source_block ≤ tx.source_block_number)
        × ((big_int policy.max_source_block ≡ 0)
            ⊎ (tx.source_block_number ≤ big_int policy.max_source_block))
        × (evaluate_asset e policy.asset_kind tx policy ≡ next ev)
  unfolding evaluate
  evaluate-steps ev h = ground (arith, eq_iff policy.expected_source_contract e.zero_address)

  -- Evidence comes only from a successful transaction of the policy's chain and sender, in its
  -- window, to its target, that pays its recipient an amount that satisfies it.
  pub evaluate-IsAccepted :
      (ev : InterpretedEvidence) → evaluate e tx policy ≡ next ev → IsAccepted ev
  evaluate-IsAccepted ev h =
      let (schema, height, succeeded, chain, sender, target, stale, late, paid) =
        evaluate-steps ev h in
      record {
        schema = schema;
        height = height;
        succeeded = succeeded;
        chain = chain;
        sender = (same_address_iff e tx.from policy.expected_sender).0 sender;
        target = ground (arith, sent_to_iff e tx.to policy.expected_source_contract);
        not_stale = stale;
        not_late = late;
        payment = evaluate_asset-Payment policy.asset_kind ev paid;
      }
