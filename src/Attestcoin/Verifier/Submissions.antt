-- ===== src/Attestcoin/Verifier/Submissions.antt =====
-- Every submission that `verifyAndSubmit` of attestcoin-verifier.ts makes is an authorized one.
use veyronis.Prelude.{String, ◌≡◌, refl, Bool, true, false, ◌∷◌, All, arith, ◌∙◌, ap}
use veyronis.Prelude.Flow.{next, or_throw-next}
use veyronis.Prelude.Flow.Run.{◌>>=◌}
use veyronis.Ethers.{Ethers}
use veyronis.Attestcoin.{
  AttestcoinProofRequest, VerifiedSourceTransaction, InterpretedEvidence, VerifiedEvidenceClaim,
  VerifiedConditionFacts, ConditionSubmissionMode, dispute_evidence, prerequisite_record,
  direct_settlement,
}
use veyronis.Attestcoin.Commitment.{compute_claim_id}
use veyronis.Attestcoin.Verifier.Interfaces.{
  Services, Trace, Call, submit, dispute_context, settlement_context, verified_claim, perform,
}
use veyronis.Attestcoin.Verifier.Calls.{lift-calls, bind-calls, perform-calls, pure-calls}
use veyronis.Attestcoin.Verifier.Checks.{check_transaction, check_interpretation, make_claim}
use veyronis.Attestcoin.Verifier.Safety.{
  Authorized, IsPermitted, RequestFits, ClaimFits, check_request-RequestFits, check_transaction-eqs,
  check_interpretation-eqs, authorize-Authorized,
}
use veyronis.Attestcoin.Verifier.{
  mode_of, submit_claim, confirm, settle, caught, authorize, check_replay, submit_evidence,
  verify_and_submit,
}

module _ (e : Ethers) (s : Services) (request : AttestcoinProofRequest) where
  -- The call that reads the outcome back.
  abbrev pub confirm_call : ConditionSubmissionMode → Call
  confirm_call dispute_evidence = verified_claim request.escrow_address
  confirm_call _ = settlement_context request.escrow_address

  pub confirm-trace :
      (mode : ConditionSubmissionMode) (id : String) (t : Trace)
      → (confirm e s mode request id t).1 ≡ confirm_call mode ∷ t
  unfolding confirm ◌>>=◌ perform
  confirm-trace direct_settlement id t = ground arith
  confirm-trace prerequisite_record id t = ground arith
  confirm-trace dispute_evidence id t = ground arith

  pub submit_claim-trace :
      (mode : ConditionSubmissionMode) (claim : VerifiedEvidenceClaim) (t : Trace)
      → (submit_claim e s mode claim false t).1 ≡ submit mode claim ∷ t
  unfolding submit_claim ◌>>=◌ perform
  submit_claim-trace mode claim t = ground arith

  submit_claim-calls :
      (claim : VerifiedEvidenceClaim) (already : Bool) (t : Trace)
      → All (IsPermitted e s request) t
      → (already ≡ false → Authorized e s request claim)
      → All (IsPermitted e s request) (submit_claim e s (mode_of request) claim already t).1
  submit_claim-calls claim true t h a = unfold submit_claim ◌>>=◌ in h
  submit_claim-calls claim false t h a =
      rw (submit_claim-trace (mode_of request) claim t) ((refl, a refl), h)

  confirm_call-IsPermitted :
      (mode : ConditionSubmissionMode) → IsPermitted e s request (confirm_call mode)
  confirm_call-IsPermitted dispute_evidence = tt
  confirm_call-IsPermitted direct_settlement = tt
  confirm_call-IsPermitted prerequisite_record = tt

  confirm-calls :
      (mode : ConditionSubmissionMode) (id : String) (t : Trace)
      → All (IsPermitted e s request) t
      → All (IsPermitted e s request) (confirm e s mode request id t).1
  confirm-calls mode id t h = rw (confirm-trace mode id t) (confirm_call-IsPermitted mode, h)

  settle-calls :
      (claim : VerifiedEvidenceClaim) (id : String) (already : Bool) (amount : String)
      (facts : VerifiedConditionFacts) (t : Trace)
      → All (IsPermitted e s request) t
      → (already ≡ false → Authorized e s request claim)
      → All
          (IsPermitted e s request)
          (caught e s (settle e s request claim id already amount facts) t).1
  unfolding settle caught
  settle-calls claim id already amount facts t h a =
      bind-calls (IsPermitted e s request) _ _ t (submit_claim-calls claim already t h a)
        (λ sub u _ k.
          bind-calls (IsPermitted e s request) _ _ u (confirm-calls (mode_of request) _ u k)
            (λ _ v _ l. pure-calls (IsPermitted e s request) _ v l))

  authorize-calls :
      (claim : VerifiedEvidenceClaim) (id : String) (t : Trace)
      → All (IsPermitted e s request) t
      → All (IsPermitted e s request) (authorize e s request claim id t).1
  unfolding authorize check_replay
  authorize-calls claim id t h = lift-calls (IsPermitted e s request) _ _ t h (λ key keyed.
      bind-calls (IsPermitted e s request) _ _ t (tt, (tt, h))
        (λ already u _ k. perform-calls (IsPermitted e s request) _ _ _ u k tt (λ escrow _.
          lift-calls (IsPermitted e s request) _ _ (dispute_context request.escrow_address ∷ u)
            (tt, k) (λ _ _. pure-calls (IsPermitted e s request) _ _ (tt, k)))))

  after_claim :
      (u : Trace) (tx : VerifiedSourceTransaction) (ev : InterpretedEvidence)
      (claim : VerifiedEvidenceClaim)
      → All (IsPermitted e s request) u
      → RequestFits e s request
      → ClaimFits e s request claim
      → All (IsPermitted e s request) (submit_evidence e s request tx ev claim u).1
  unfolding submit_evidence
  after_claim u tx ev claim h request_fits claim_fits =
      lift-calls (IsPermitted e s request) _ _ u h (λ id identified.
        bind-calls (IsPermitted e s request) _ _ u (authorize-calls claim id u h)
          (λ already v ran k. lift-calls (IsPermitted e s request) _ _ v k (λ facts _.
            settle-calls claim id already ev.amount facts v k (λ fresh.
              authorize-Authorized e s request claim id u v request_fits claim_fits
                (or_throw-next (compute_claim_id e claim) identified)
                (ran ∙ ap (λ b. (next b, v)) fresh)))))

  unfoldable pub claim_facts :
      (t : Trace) (tx : VerifiedSourceTransaction) (ev : InterpretedEvidence)
      (claim : VerifiedEvidenceClaim)
      → s.verify t request ≡ next tx
      → check_transaction e request tx ≡ next tt
      → s.evaluate tx request.policy ≡ next ev
      → check_interpretation e request ev ≡ next tt
      → make_claim e request tx ev ≡ next claim
      → ClaimFits e s request claim
  claim_facts t tx ev claim proved matched interpreted agreed made =
      let (chain, hash) = check_transaction-eqs e s request tx matched in
      let (kind, subject) = check_interpretation-eqs e s request ev agreed in
      record {
        tx = tx;
        evidence = ev;
        before = t;
        proved = proved;
        interpreted = interpreted;
        chain = chain;
        hash = hash;
        kind = kind;
        subject = subject;
        made = made;
      }

  -- Whatever the outcome, every submission among the calls carries the request's mode and an
  -- authorized claim.
  pub verify_and_submit-calls :
      (t : Trace)
      → All (IsPermitted e s request) t
      → All (IsPermitted e s request) (verify_and_submit e s request t).1
  unfolding verify_and_submit
  verify_and_submit-calls t h = lift-calls (IsPermitted e s request) _ _ t h (λ _ fits.
      perform-calls (IsPermitted e s request) _ _ _ t h tt (λ tx proved.
        lift-calls (IsPermitted e s request) _ _ _ (tt, h)
          (λ _ matched.
            lift-calls (IsPermitted e s request) _ _ _ (tt, h)
              (λ ev interpreted.
                lift-calls (IsPermitted e s request) _ _ _ (tt, h)
                  (λ _ agreed.
                    lift-calls (IsPermitted e s request) _ _ _ (tt, h)
                      (λ claim made.
                        after_claim _ tx ev claim (tt, h)
                          (check_request-RequestFits e s request fits)
                          (claim_facts t tx ev claim proved matched interpreted agreed made)))))))
