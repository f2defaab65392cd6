-- ===== src/Attestcoin/Verifier/Confirmed.antt =====
-- What a successful result of `verifyAndSubmit` in attestcoin-verifier.ts says of the escrow.
use veyronis.Prelude.{
  ◌<◌, String, ◌≡◌, refl, Bool, true, some, ◌∷◌, arith, Option-cases, inl, inr, ap, ◌∙◌, sym,
}
use veyronis.Prelude.Flow.{Flow, next, failed, threw}
use veyronis.Prelude.Flow.Run.{◌>>=◌, bind-eq-next, lift-eq-next, pure-eq-next}
use mathlib.Core.Path.{subst}
use veyronis.Ethers.{Ethers}
use veyronis.Attestcoin.{
  Failure, AttestcoinProofRequest, VerifiedSourceTransaction, InterpretedEvidence,
  VerifiedEvidenceClaim, VerifiedConditionFacts, Verification, ConditionSubmissionMode,
  dispute_evidence, prerequisite_record, direct_settlement, EscrowSettlementContext,
}
use veyronis.Attestcoin.Commitment.{same_hex}
use veyronis.Attestcoin.Verifier.Interfaces.{Services, Trace, perform}
use veyronis.Attestcoin.Verifier.Safety.{ClaimFits}
use veyronis.Attestcoin.Verifier.Submissions.{confirm_call, confirm-trace, claim_facts}
use veyronis.Attestcoin.Verifier.{
  mode_of, is_settled, is_recorded, confirm, accepted_claim_id, settle, recover, caught,
  submit_evidence, verify_and_submit,
}

module _ (e : Ethers) (s : Services) (request : AttestcoinProofRequest) where
  -- What the escrow answered when it was read back, after the calls `before`.
  abbrev pub Outcome : ConditionSubmissionMode → String → Trace → Type 0
  Outcome direct_settlement id before =
      (c : EscrowSettlementContext) × (s.read_settlement_context before request.escrow_address
        ≡ some c)
      × (c.state ≡ 4)
      × (same_hex c.verified_claim_id id ≡ true)
      × (0 < c.seller_withdrawal)
  Outcome prerequisite_record id before =
      (c : EscrowSettlementContext) × (s.read_settlement_context before request.escrow_address
        ≡ some c)
      × (c.state ≡ 1)
      × (same_hex c.verified_claim_id id ≡ true)
      × (same_hex c.active_evidence_commitment e.zero_hash ≡ true)
      × (c.seller_withdrawal ≡ 0)
  Outcome dispute_evidence id before =
      (c : String) × (s.read_verified_claim_id before request.escrow_address ≡ some c)
      × (same_hex c id ≡ true)

  -- The last call read the escrow, and the answer is the outcome that the mode asks for.
  pub record Confirmed (v : Verification) (calls : Trace) : Type 0 where
    pub claim : VerifiedEvidenceClaim
    pub returned : v.claim ≡ claim
    pub claim_fits : ClaimFits e s request claim
    pub amount : v.verified_amount ≡ claim_fits.evidence.amount
    pub before : Trace
    pub last : calls ≡ confirm_call e s request (mode_of request) ∷ before
    pub outcome : Outcome (mode_of request) v.claim_id before

  confirm-direct :
      (id : String) (t u : Trace)
      → confirm e s direct_settlement request id t ≡ (next tt, u)
      → Outcome direct_settlement id t
  unfolding confirm is_settled ◌>>=◌ perform
  confirm-direct id t u h =
      elim (Option-cases (s.read_settlement_context t request.escrow_address)) [
        | inl missing ↦ absurd (ground arith)
        | inr (c, read) ↦ (c, read, ground arith, ground arith, ground arith)
      ]

  confirm-prerequisite :
      (id : String) (t u : Trace)
      → confirm e s prerequisite_record request id t ≡ (next tt, u)
      → Outcome prerequisite_record id t
  unfolding confirm is_recorded ◌>>=◌ perform
  confirm-prerequisite id t u h =
      elim (Option-cases (s.read_settlement_context t request.escrow_address)) [
        | inl missing ↦ absurd (ground arith)
        | inr (c, read) ↦ (c, read, ground arith, ground arith, ground arith, ground arith)
      ]

  confirm-dispute :
      (id : String) (t u : Trace)
      → confirm e s dispute_evidence request id t ≡ (next tt, u)
      → Outcome dispute_evidence id t
  unfolding confirm ◌>>=◌ perform
  confirm-dispute id t u h =
      elim (Option-cases (s.read_verified_claim_id t request.escrow_address)) [
        | inl missing ↦ absurd (ground arith)
        | inr (c, read) ↦ (c, read, ground arith)
      ]

  confirm-Outcome :
      (mode : ConditionSubmissionMode) (id : String) (t u : Trace)
      → confirm e s mode request id t ≡ (next tt, u)
      → Outcome mode id t
  confirm-Outcome direct_settlement id t u h = confirm-direct id t u h
  confirm-Outcome prerequisite_record id t u h = confirm-prerequisite id t u h
  confirm-Outcome dispute_evidence id t u h = confirm-dispute id t u h

  recover-eq-next :
      {A : Type 0} (r : Flow Failure A × Trace) {a : A} {u : Trace}
      → ◌≡◌ {A = Flow Failure A × Trace} (recover e s r.0, r.1) (next a, u)
      → r ≡ (next a, u)
  recover-eq-next (next b, t) h = h
  recover-eq-next (failed x, t) h = cc
  recover-eq-next (threw, t) h = cc

  settle-Outcome :
      (claim : VerifiedEvidenceClaim) (id : String) (already : Bool) (amount : String)
      (facts : VerifiedConditionFacts) (t u : Trace) (v : Verification)
      → caught e s (settle e s request claim id already amount facts) t ≡ (next v, u)
      → (v.claim ≡ claim)
        × (v.verified_amount ≡ amount)
        × (before : Trace) × (u ≡ confirm_call e s request (mode_of request) ∷ before)
        × Outcome (mode_of request) v.claim_id before
  unfolding caught settle
  settle-Outcome claim id already amount facts t u v h =
      let h0 = recover-eq-next (settle e s request claim id already amount facts t) h in
      let (sub, t1, _, h1) = bind-eq-next _ _ t h0 in
      let (_, t2, confirmed, h2) = bind-eq-next _ _ t1 h1 in
      let id' : String = accepted_claim_id e s sub id in
      let (same, ended) = pure-eq-next _ t2 h2 in
      let last : t2 ≡ confirm_call e s request (mode_of request) ∷ t1 =
        sym (ap (λ (r : Flow Failure (Unit {0}) × Trace). r.1) confirmed)
        ∙ confirm-trace e s request (mode_of request) id' t1 in
      (
        sym (ap (λ (r : Verification). r.claim) same),
        sym (ap (λ (r : Verification). r.verified_amount) same),
        t1,
        sym ended ∙ last,
        subst (λ i. Outcome (mode_of request) i t1) (ap (λ (r : Verification). r.claim_id) same)
            (confirm-Outcome (mode_of request) id' t1 t2 confirmed),
      )

  submit_evidence-Confirmed :
      (tx : VerifiedSourceTransaction) (ev : InterpretedEvidence) (claim : VerifiedEvidenceClaim)
      (t u : Trace) (v : Verification)
      → (f : ClaimFits e s request claim) → f.evidence ≡ ev
      → submit_evidence e s request tx ev claim t ≡ (next v, u)
      → Confirmed v u
  unfolding submit_evidence
  submit_evidence-Confirmed tx ev claim t u v f same h =
      let (id, _, h1) = lift-eq-next _ _ t h in
      let (already, t1, _, h2) = bind-eq-next _ _ t h1 in
      let (facts, _, h3) = lift-eq-next _ _ t1 h2 in
      let (claimed, amount, before, last, outcome) =
        settle-Outcome claim id already ev.amount facts t1 u v h3 in
      record {
        claim = claim;
        returned = claimed;
        claim_fits = f;
        amount = amount ∙ sym (ap (λ (r : InterpretedEvidence). r.amount) same);
        before = before;
        last = last;
        outcome = outcome;
      }

  -- A success returns the claim and the amount of evidence that the proof service returned and
  -- the evaluator accepted. Its last call read the escrow, and in the direct mode the escrow was
  -- complete, held this claim and had credited the seller; in the prerequisite mode it still
  -- awaited delivery, held this claim and had credited nothing; in a dispute it held this claim.
  pub verify_and_submit-Confirmed :
      (t u : Trace) (v : Verification)
      → verify_and_submit e s request t ≡ (next v, u)
      → Confirmed v u
  unfolding verify_and_submit claim_facts
  verify_and_submit-Confirmed t u v h =
      let (_, _, h1) = lift-eq-next _ _ t h in
      let (tx, t1, proved, h2) = bind-eq-next _ _ t h1 in
      let (_, matched, h3) = lift-eq-next _ _ t1 h2 in
      let (ev, interpreted, h4) = lift-eq-next _ _ t1 h3 in
      let (_, agreed, h5) = lift-eq-next _ _ t1 h4 in
      let (claim, made, h6) = lift-eq-next _ _ t1 h5 in
      let answer : s.verify t request ≡ next tx =
        unfold perform in ap (λ (r : Flow Failure VerifiedSourceTransaction × Trace). r.0) proved in
      submit_evidence-Confirmed tx ev claim t1 u v
        (claim_facts e s request t tx ev claim answer matched interpreted agreed made) refl h6
