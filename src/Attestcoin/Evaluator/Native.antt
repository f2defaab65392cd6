-- ===== src/Attestcoin/Evaluator/Native.antt =====
-- The amount rule and the native branch of source-transaction-interpreter.ts.
use veyronis.Prelude.{ℕ, ◌≤◌, String, ◌≡◌, ◌↔◌, true, Option, none, some, arith}
use veyronis.Prelude.Flow.{next}
use veyronis.Prelude.Text.{big_int}
use veyronis.Ethers.{Ethers}
use veyronis.Shared.Policy.{AmountRule, exact, minimum, EvidencePolicy}
use veyronis.Attestcoin.{VerifiedSourceTransaction, InterpretedEvidence}
use veyronis.Attestcoin.Address.{SameAddress, same_address_iff}
use veyronis.Attestcoin.Evaluator.{amount_satisfies, check_amount, sent_to, evaluate_native}

-- The amount is the expected one, or at least that.
abbrev pub AmountSatisfies : AmountRule → ℕ → ℕ → Type 0
AmountSatisfies exact amount expected = amount ≡ expected
AmountSatisfies minimum amount expected = expected ≤ amount

pub amount_satisfies_iff :
    (r : AmountRule) (a b : ℕ) → (amount_satisfies r a b ≡ true) ↔ AmountSatisfies r a b
unfolding amount_satisfies
amount_satisfies_iff exact a b = ground arith
amount_satisfies_iff minimum a b = ground arith

pub check_amount_iff :
    (a : ℕ) (policy : EvidencePolicy)
    → (check_amount a policy ≡ next tt)
      ↔ AmountSatisfies policy.amount_rule a (big_int policy.amount)
unfolding check_amount
check_amount_iff a policy =
    ground (arith, amount_satisfies_iff policy.amount_rule a (big_int policy.amount))

-- The transaction has a target, and it is this address.
abbrev pub SentTo : Ethers → Option String → String → Type 0
SentTo e none expected = ⊥
SentTo e (some to) expected = SameAddress e to expected

pub sent_to_iff :
    (e : Ethers) (to : Option String) (expected : String)
    → (sent_to e to expected ≡ true) ↔ SentTo e to expected
sent_to_iff e none expected = ground arith
sent_to_iff e (some to) expected = same_address_iff e to expected

-- The evidence that a policy and an amount make.
abbrev pub evidence : EvidencePolicy → String → InterpretedEvidence
evidence policy amount = record {
  evidence_type = policy.evidence_type;
  subject = policy.expected_sender;
  amount = amount;
}

-- A native transfer is accepted exactly when the transaction goes to the expected recipient, as an
-- address, and its value satisfies the policy's rule for the amount; the evidence is then that of
-- the policy with this value.
pub evaluate_native_iff :
    (e : Ethers) (tx : VerifiedSourceTransaction) (policy : EvidencePolicy)
    (ev : InterpretedEvidence)
    → (evaluate_native e tx policy ≡ next ev) ↔ (
        SentTo e tx.to policy.expected_recipient
        × AmountSatisfies policy.amount_rule (big_int tx.value) (big_int policy.amount)
        × (evidence policy tx.value ≡ ev))
unfolding evaluate_native
evaluate_native_iff e tx policy ev = ground (
  arith,
  sent_to_iff e tx.to policy.expected_recipient,
  check_amount_iff (big_int tx.value) policy,
)
