-- ===== src/Attestcoin/Evaluator/Examples.antt =====
-- The evaluator on small transactions.
use veyronis.Prelude.{ℕ, ◌≡◌, ◌↔◌, refl, some, [], ◌∷◌}
use veyronis.Prelude.Flow.{next}
use veyronis.Prelude.Text.Decimal.{decimal}
use veyronis.Prelude.Text.{to_lower_case, slice_last, big_int}
use veyronis.Shared.Policy.{minimum, policy_shape, policy_terms, evidence_policy_schema}
use veyronis.Samples.{
  sample_ethers, payer, payee, vault, sample_hash, native_policy, token_policy, address_of,
}
use veyronis.Attestcoin.{VerifiedSourceTransaction, VerifiedSourceLog, same_address}
use veyronis.Attestcoin.Evaluator.{
  evaluate, evaluate_asset, evaluate_native, check_amount, amount_satisfies, scan_logs,
  matching_amount, read_transfer, topic_address,
}
use veyronis.Attestcoin.Evaluator.Native.{evidence, SentTo, AmountSatisfies, evaluate_native_iff}
use veyronis.Attestcoin.Evaluator.Transfers.{Moves, matching_amount-Moves, scan_logs-first}
use veyronis.Attestcoin.Evaluator.Accepted.{IsAccepted, evaluate-IsAccepted}

abbrev paid : VerifiedSourceTransaction
paid = record {
  source_chain_key = 1;
  source_transaction_hash = sample_hash;
  source_block_number = 12;
  transaction_index = 0;
  from = payer;
  to = some payee;
  chain_id = "11155111";
  value = "300";
  calldata = "0x";
  receipt_status = 1;
  logs = [];
}

paid_accepted : evaluate sample_ethers paid native_policy ≡ next (evidence native_policy "300")
unfolding evaluate evaluate_asset evaluate_native check_amount amount_satisfies
    evidence_policy_schema policy_shape policy_terms same_address address_of to_lower_case
paid_accepted = refl

evaluate-IsAccepted_example :
    IsAccepted sample_ethers paid native_policy (evidence native_policy "300")
evaluate-IsAccepted_example =
    evaluate-IsAccepted sample_ethers paid native_policy (evidence native_policy "300")
      paid_accepted

abbrev other_log : VerifiedSourceLog
other_log = record { address = vault; topics = "Transfer" ∷ []; log_data = "0x" }

abbrev transfer_log : VerifiedSourceLog
transfer_log = record {
  address = vault;
  topics =
      "Transfer(address,address,uint256)"
      ∷ "0x0000000000000000000000001111111111111111111111111111111111111111"
      ∷ "0x0000000000000000000000002222222222222222222222222222222222222222" ∷ [];
  log_data = "0xfa";
}

skipped : (n : ℕ) → ¬ Moves sample_ethers token_policy other_log n
unfolding read_transfer
skipped n m = let parts = m.parts in cc

moved : matching_amount sample_ethers token_policy transfer_log ≡ some 250
unfolding matching_amount read_transfer same_address address_of to_lower_case topic_address
    slice_last
moved = refl

scan_logs-first_example :
    (scan_logs sample_ethers token_policy (other_log ∷ transfer_log ∷ other_log ∷ [])
      ≡ next (evidence token_policy "250"))
    ↔ (AmountSatisfies token_policy.amount_rule 250 (big_int token_policy.amount)
        × (evidence token_policy (decimal 250) ≡ evidence token_policy "250"))
scan_logs-first_example =
    scan_logs-first sample_ethers token_policy (other_log ∷ []) transfer_log (other_log ∷ []) 250
      (evidence token_policy "250") (skipped, tt)
      (matching_amount-Moves sample_ethers token_policy transfer_log 250 moved)

evaluate_native_iff_example :
    (evaluate_native sample_ethers paid native_policy ≡ next (evidence native_policy "300")) ↔ (
      SentTo sample_ethers (some payee) payee
      × AmountSatisfies minimum (big_int "300") (big_int "250")
      × (evidence native_policy "300" ≡ evidence native_policy "300"))
evaluate_native_iff_example =
    evaluate_native_iff sample_ethers paid native_policy (evidence native_policy "300")
