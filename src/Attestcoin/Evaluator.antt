-- ===== src/Attestcoin/Evaluator.antt =====
-- backend/src/attestcoin/source-transaction-interpreter.ts: whether a proved source transaction
-- is the payment that the evidence policy asks for.
pub mod Native
pub mod Transfers
pub mod Accepted
pub mod Examples
use veyronis.Prelude.{
  ℕ, zero, suc, ◌-◌, ◌^◌, String, ◌≡◌, Bool, true, false, not, ◌&&◌, ◌||◌, Option, none, some, List,
  [], ◌∷◌, ltb, leb, ◌==◌ as nat_eq, if◌then◌else◌, filter, length, get_elem?,
}
use veyronis.Prelude.Flow.{Flow, next, failed, threw, require, ◌>>=◌, ◌>>◌}
use veyronis.Prelude.Text.{to_lower_case, big_int, slice_last}
use veyronis.Prelude.Text.Decimal.{decimal}
use veyronis.Ethers.{Ethers}
use veyronis.Shared.Policy.{
  native, erc20, exact, minimum, AssetKind, AmountRule, EvidencePolicy, evidence_policy_schema,
}
use veyronis.Attestcoin.{
  Failure, failure, VerifiedSourceLog, VerifiedSourceTransaction, InterpretedEvidence, same_address,
  invalid_policy, missing_verified_freshness_context, wrong_event, unsupported_source_chain,
  subject_mismatch, wrong_source_contract, stale_evidence, wrong_recipient, wrong_asset,
  wrong_calldata, wrong_amount,
}
use Prim.Native.String
use text.Mathlib.Text.{◌==◌, starts_with}

unfoldable pub amount_satisfies : AmountRule → ℕ → ℕ → Bool
amount_satisfies exact amount expected = nat_eq amount expected
amount_satisfies minimum amount expected = leb expected amount

-- `checkAmount`: a failure is the failure that it returns, `next` is `undefined`.
unfoldable pub check_amount : ℕ → EvidencePolicy → Flow Failure (Unit {0})
check_amount amount policy =
    require (amount_satisfies policy.amount_rule amount (big_int policy.amount))
      (failure wrong_amount "Verified payment amount does not satisfy the policy")

abbrev success : EvidencePolicy → String → Flow Failure InterpretedEvidence
success policy amount = next (record {
  evidence_type = policy.evidence_type;
  subject = policy.expected_sender;
  amount = amount;
})

module _ (e : Ethers) where
  -- `!transaction.to || !sameAddress(transaction.to, expected)`, negated.
  abbrev pub sent_to : Option String → String → Bool
  sent_to none expected = false
  sent_to (some to) expected = same_address e to expected

  unfoldable pub evaluate_native :
      VerifiedSourceTransaction → EvidencePolicy → Flow Failure InterpretedEvidence
  evaluate_native tx policy = do
    require (sent_to tx.to policy.expected_recipient)
        (failure wrong_recipient "Native payment recipient does not satisfy the policy")
    check_amount (big_int tx.value) policy
    success policy tx.value

  unfoldable pub transfer_call :
      String → EvidencePolicy → Option (String × ℕ) → Flow Failure (Unit {0})
  transfer_call calldata policy none =
      failed
        (failure wrong_calldata "Transaction calldata cannot be decoded with the committed ABI")
  transfer_call calldata policy (some (to, amount)) = do
    require (same_address e to policy.expected_recipient)
        (failure wrong_calldata "Decoded transfer recipient does not satisfy the policy")
    require (amount_satisfies policy.amount_rule amount (big_int policy.amount))
        (failure wrong_calldata "Decoded transfer amount does not satisfy the policy")

  -- The block under `policy.calldataSelector !== "0x00000000"`.
  unfoldable pub check_calldata : String → EvidencePolicy → Flow Failure (Unit {0})
  check_calldata calldata policy = if policy.calldata_selector == "0x00000000" then next tt else (do
    require (starts_with (to_lower_case calldata) (to_lower_case policy.calldata_selector))
        (failure wrong_calldata "Transaction calldata selector does not satisfy the policy")
    transfer_call calldata policy (e.decode_transfer calldata))

  first_topic_is : List String → String → Bool
  first_topic_is [] topic = false
  first_topic_is (t ∷ ts) topic = to_lower_case t == to_lower_case topic

  abbrev pub transfer_topic : String
  transfer_topic = e.id "Transfer(address,address,uint256)"

  unfoldable pub is_transfer : VerifiedSourceLog → Bool
  unfolding first_topic_is
  is_transfer log = first_topic_is log.topics transfer_topic

  -- `getAddress(`0x${topic.slice(-40)}`)`.
  unfoldable pub topic_address : String → Option String
  topic_address topic = e.get_address (String.◌++◌ "0x" (slice_last 40 topic))

  -- The parts of a log with three topics, `none` where reading one of them throws.
  read_parts : Option String → Option String → Option ℕ → Option (String × String × ℕ)
  read_parts (some sender) (some recipient) (some amount) = some (sender, recipient, amount)
  read_parts _ _ _ = none

  read_topics : List String → String → Option (String × String × ℕ)
  unfolding read_parts topic_address
  read_topics (event ∷ sender ∷ recipient ∷ []) log_data =
      read_parts (topic_address sender) (topic_address recipient) (e.decode_uint256 log_data)
  read_topics _ log_data = none

  unfoldable pub read_transfer : VerifiedSourceLog → Option (String × String × ℕ)
  unfolding read_topics
  read_transfer log = read_topics log.topics log.log_data

  -- The amount that a log moves from the expected sender to the expected recipient.
  matching_parts : EvidencePolicy → Option (String × String × ℕ) → Option ℕ
  matching_parts policy none = none
  matching_parts policy (some (sender, recipient, amount)) =
      if same_address e sender policy.expected_sender
        && same_address e recipient policy.expected_recipient
      then some amount
      else none

  unfoldable pub matching_amount : EvidencePolicy → VerifiedSourceLog → Option ℕ
  unfolding matching_parts
  matching_amount policy log = matching_parts policy (read_transfer log)

  unfoldable pub decide_amount : EvidencePolicy → ℕ → Flow Failure InterpretedEvidence
  decide_amount policy amount = do check_amount amount policy; success policy (decimal amount)

  -- The loop over the asset's logs.
  unfoldable pub scan_logs :
      EvidencePolicy → List VerifiedSourceLog → Flow Failure InterpretedEvidence
  scan_logs policy [] =
      failed
        (failure wrong_event "No well-formed Transfer event satisfies the committed participants")
  scan_logs policy (log ∷ logs) = elim (matching_amount policy log) [
    | none ↦ scan_logs policy logs
    | some amount ↦ decide_amount policy amount
  ]

  -- `logs.length === 0` fails.
  abbrev nonempty : List VerifiedSourceLog → Bool
  nonempty [] = false
  nonempty (_ ∷ _) = true

  unfoldable pub evaluate_erc20 :
      VerifiedSourceTransaction → EvidencePolicy → Flow Failure InterpretedEvidence
  evaluate_erc20 tx policy = do
    require (nat_eq (big_int tx.value) 0)
        (failure wrong_asset "ERC-20 evidence cannot be inferred from native value")
    check_calldata tx.calldata policy
    let transfer_logs = filter is_transfer tx.logs
    require (nonempty transfer_logs)
        (failure wrong_event "Required ERC-20 Transfer event is missing")
    let asset_logs = filter (λ log. same_address e log.address policy.expected_asset) transfer_logs
    require (nonempty asset_logs)
        (failure wrong_asset "Transfer event was emitted by another token contract")
    scan_logs policy asset_logs

  unfoldable pub evaluate_asset :
      AssetKind → VerifiedSourceTransaction → EvidencePolicy → Flow Failure InterpretedEvidence
  evaluate_asset native tx policy = evaluate_native tx policy
  evaluate_asset erc20 tx policy = evaluate_erc20 tx policy

  -- `Number.isSafeInteger(n) && n >= 0`.
  abbrev is_safe_integer : ℕ → Bool
  is_safe_integer n = leb n (2 ^ 53 - 1)

  unfoldable pub evaluate :
      VerifiedSourceTransaction → EvidencePolicy → Flow Failure InterpretedEvidence
  evaluate tx policy = do
    require (evidence_policy_schema policy)
        (failure invalid_policy "Evidence policy is malformed or internally inconsistent")
    require (is_safe_integer tx.source_block_number)
        (failure missing_verified_freshness_context "Verified source block height is unavailable")
    require (nat_eq tx.receipt_status 1)
        (failure wrong_event "The verified source transaction did not succeed")
    require (nat_eq tx.source_chain_key policy.source_chain_key)
        (failure unsupported_source_chain "Verified source chain does not satisfy the policy")
    require (same_address e tx.from policy.expected_sender)
        (failure subject_mismatch "Verified sender does not satisfy the policy")
    require
        (policy.expected_source_contract == e.zero_address
          || sent_to tx.to policy.expected_source_contract)
        (failure wrong_source_contract "Verified transaction target does not satisfy the policy")
    require (leb (big_int policy.min_source_block) tx.source_block_number)
        (failure stale_evidence "Verified transaction predates the evidence window")
    require
        (nat_eq (big_int policy.max_source_block) 0
          || leb tx.source_block_number (big_int policy.max_source_block))
        (failure stale_evidence "Verified transaction is after the evidence deadline")
    evaluate_asset policy.asset_kind tx policy
