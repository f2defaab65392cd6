-- ===== src/Attestcoin/Evaluator/Transfers.antt =====
-- The ERC-20 branch of source-transaction-interpreter.ts: which Transfer event it goes by.
use veyronis.Prelude.{
  ℕ, String, ◌≡◌, refl, Option, none, some, arith, List, [], ◌∷◌, Option-cases, Bool-cases,
  and-eq-true, inl, inr, ◌&&◌, ◌↔◌, ◌++◌, ap, All,
}
use veyronis.Prelude.Flow.{next}
use veyronis.Prelude.Text.{big_int}
use veyronis.Prelude.Text.Decimal.{decimal}
use veyronis.Ethers.{Ethers}
use veyronis.Shared.Policy.{EvidencePolicy}
use veyronis.Attestcoin.{VerifiedSourceLog, InterpretedEvidence, same_address}
use veyronis.Attestcoin.Address.{SameAddress, same_address_iff}
use veyronis.Attestcoin.Evaluator.{
  read_transfer, matching_parts, matching_amount, decide_amount, scan_logs,
}
use veyronis.Attestcoin.Evaluator.Native.{AmountSatisfies, check_amount_iff, evidence}

module _ (e : Ethers) (policy : EvidencePolicy) where
  -- The log is a transfer from the policy's sender to its recipient, of this amount.
  pub record Moves (log : VerifiedSourceLog) (amount : ℕ) : Type 0 where
    pub sender : String
    pub recipient : String
    pub parts : read_transfer e log ≡ some (sender, recipient, amount)
    pub from : SameAddress e sender policy.expected_sender
    pub to : SameAddress e recipient policy.expected_recipient

  matching_parts-eq-some :
      (o : Option (String × String × ℕ)) (amount : ℕ)
      → matching_parts e policy o ≡ some amount
      → (s r : String) × (o ≡ some (s, r, amount))
        × SameAddress e s policy.expected_sender
        × SameAddress e r policy.expected_recipient
  unfolding matching_parts
  matching_parts-eq-some none amount h = cc
  matching_parts-eq-some (some (s, r, n)) amount h =
      elim (Bool-cases
        (same_address e s policy.expected_sender && same_address e r policy.expected_recipient)) [
          | inl t ↦
              let same : n ≡ amount = ground arith in
              let (p, q) = and-eq-true _ _ t in
              (
                s,
                r,
                ap (λ k. some (s, r, k)) same,
                (same_address_iff e s policy.expected_sender).0 p,
                (same_address_iff e r policy.expected_recipient).0 q,
              )
          | inr f ↦ cc (rw (f, matching_parts) at h)
        ]

  pub matching_amount-Moves :
      (log : VerifiedSourceLog) (amount : ℕ)
      → matching_amount e policy log ≡ some amount
      → Moves log amount
  unfolding matching_amount
  matching_amount-Moves log amount h =
      let (s, r, parts, from, to) = matching_parts-eq-some (read_transfer e log) amount h in
      record { sender = s; recipient = r; parts = parts; from = from; to = to }

  -- Where the scan of the logs stops: at the first log that moves an amount between the policy's
  -- participants.
  pub record StopsAt (logs : List VerifiedSourceLog) (amount : ℕ) : Type 0 where
    pub before : List VerifiedSourceLog
    pub log : VerifiedSourceLog
    pub after : List VerifiedSourceLog
    pub split : logs ≡ before ++ (log ∷ after)
    pub skipped : All (λ l. matching_amount e policy l ≡ none) before
    pub moves : matching_amount e policy log ≡ some amount

  StopsAt-cons :
      {log : VerifiedSourceLog} {logs : List VerifiedSourceLog} {amount : ℕ}
      → matching_amount e policy log ≡ none
      → StopsAt logs amount
      → StopsAt (log ∷ logs) amount
  StopsAt-cons {log} skip s = record {
    before = log ∷ s.before;
    log = s.log;
    after = s.after;
    split = ap (λ l. log ∷ l) s.split;
    skipped = (skip, s.skipped);
    moves = s.moves;
  }

  decide_amount-eq-next :
      (amount : ℕ) (ev : InterpretedEvidence)
      → decide_amount e policy amount ≡ next ev
      → AmountSatisfies policy.amount_rule amount (big_int policy.amount)
        × (evidence policy (decimal amount) ≡ ev)
  unfolding decide_amount
  decide_amount-eq-next amount ev h = ground (arith, check_amount_iff amount policy)

  pub scan_logs-eq-next :
      (logs : List VerifiedSourceLog) (ev : InterpretedEvidence)
      → scan_logs e policy logs ≡ next ev
      → (amount : ℕ) × StopsAt logs amount
        × AmountSatisfies policy.amount_rule amount (big_int policy.amount)
        × (evidence policy (decimal amount) ≡ ev)
  unfolding scan_logs
  scan_logs-eq-next [] ev h = cc
  scan_logs-eq-next (log ∷ logs) ev h = elim (Option-cases (matching_amount e policy log)) [
    | inl skip ↦
        let (amount, s, ok, same) = scan_logs-eq-next logs ev (rw (skip, scan_logs) at h) in
        (amount, StopsAt-cons skip s, ok, same)
    | inr (amount, found) ↦
        let (ok, same) = decide_amount-eq-next amount ev (rw (found, scan_logs) at h) in
        (
          amount,
          record {
            before = [];
            log = log;
            after = logs;
            split = refl;
            skipped = tt;
            moves = found;
          },
          ok,
          same,
        )
  ]

  scan_logs-StopsAt :
      (before : List VerifiedSourceLog) (log : VerifiedSourceLog) (after : List VerifiedSourceLog)
      (amount : ℕ)
      → All (λ l. matching_amount e policy l ≡ none) before
      → matching_amount e policy log ≡ some amount
      → scan_logs e policy (before ++ (log ∷ after)) ≡ decide_amount e policy amount
  unfolding scan_logs
  scan_logs-StopsAt [] log after amount skip found = rw (found, scan_logs)
  scan_logs-StopsAt (l ∷ before) log after amount (first, skip) found =
      rw (first, scan_logs) (scan_logs-StopsAt before log after amount skip found)

  decide_amount_iff :
      (amount : ℕ) (ev : InterpretedEvidence)
      → (decide_amount e policy amount ≡ next ev) ↔ (
          AmountSatisfies policy.amount_rule amount (big_int policy.amount)
          × (evidence policy (decimal amount) ≡ ev))
  unfolding decide_amount
  decide_amount_iff amount ev = ground (arith, check_amount_iff amount policy)

  matching_amount-none :
      (log : VerifiedSourceLog) → ((n : ℕ) → ¬ Moves log n) → matching_amount e policy log ≡ none
  matching_amount-none log still = elim (Option-cases (matching_amount e policy log)) [
    | inl skip ↦ skip
    | inr (n, found) ↦ absurd (still n (matching_amount-Moves log n found))
  ]

  Moves-matching_amount :
      (log : VerifiedSourceLog) (amount : ℕ)
      → Moves log amount
      → matching_amount e policy log ≡ some amount
  unfolding matching_amount matching_parts
  Moves-matching_amount log amount m =
      let from = (same_address_iff e m.sender policy.expected_sender).1 m.from in
      let to = (same_address_iff e m.recipient policy.expected_recipient).1 m.to in
      rw (m.parts, from, to) refl

  All-skipped :
      (logs : List VerifiedSourceLog)
      → All (λ l. (n : ℕ) → ¬ Moves l n) logs
      → All (λ l. matching_amount e policy l ≡ none) logs
  All-skipped [] skip = tt
  All-skipped (l ∷ ls) (first, rest) = (matching_amount-none l first, All-skipped ls rest)

  -- Of the logs, the first one that moves an amount between the expected participants decides,
  -- whatever follows it: the scan accepts with some evidence exactly when this amount satisfies the
  -- policy's rule and the evidence is the policy's with this amount.
  pub scan_logs-first :
      (before : List VerifiedSourceLog) (log : VerifiedSourceLog) (after : List VerifiedSourceLog)
      (amount : ℕ) (ev : InterpretedEvidence)
      → All (λ l. (n : ℕ) → ¬ Moves l n) before
      → Moves log amount
      → (scan_logs e policy (before ++ (log ∷ after)) ≡ next ev) ↔ (
          AmountSatisfies policy.amount_rule amount (big_int policy.amount)
          × (evidence policy (decimal amount) ≡ ev))
  scan_logs-first before log after amount ev skip moves =
      rw
        (scan_logs-StopsAt before log after amount (All-skipped before skip)
          (Moves-matching_amount log amount moves))
        (decide_amount_iff amount ev)
