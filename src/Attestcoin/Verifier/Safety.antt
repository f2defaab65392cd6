-- ===== src/Attestcoin/Verifier/Safety.antt =====
-- What is known whenever `verifyAndSubmit` of attestcoin-verifier.ts submits a claim.
use veyronis.Prelude.{
  String, ◌≡◌, ◌⊎◌, refl, Bool, true, false, Option, none, some, ◌∷◌, arith, Option-cases, inl, inr,
}
use veyronis.Prelude.Flow.{next}
use veyronis.Prelude.Flow.Run.{◌>>=◌}
use veyronis.Ethers.{Ethers}
use veyronis.Shared.Policy.{evidence_policy_schema}
use veyronis.Attestcoin.{
  AttestcoinProofRequest, VerifiedSourceTransaction, InterpretedEvidence, VerifiedEvidenceClaim,
  EscrowDisputeContext, ConditionSubmissionMode, dispute_evidence, prerequisite_record,
  direct_settlement,
}
use veyronis.Attestcoin.Address.{SameAddress, same_address_iff}
use veyronis.Attestcoin.Commitment.{
  same_hex, compute_evidence_policy_commitment, compute_claim_id, compute_source_evidence_key,
}
use veyronis.Attestcoin.Verifier.Interfaces.{
  Services, Call, Trace, claim_consumed, evidence_escrow, submit, perform,
}
use veyronis.Attestcoin.Verifier.Checks.{
  check_request, check_transaction, check_interpretation, make_claim, check_escrow, check_mode,
}
use veyronis.Attestcoin.Verifier.{replay_test, mode_of, authorize, check_replay}

module _ (e : Ethers) (s : Services) (request : AttestcoinProofRequest) where
  -- The request is about the policy that it commits to.
  pub record RequestFits : Type 0 where
    pub schema : evidence_policy_schema request.policy ≡ true
    pub commitment : String
    pub computed : compute_evidence_policy_commitment e request.policy ≡ some commitment
    pub committed : same_hex commitment request.evidence_policy_commitment ≡ true
    pub chain : request.policy.source_chain_key ≡ request.source_chain_key
    pub evidence : same_hex request.policy.evidence_type request.evidence_type ≡ true
    pub subject : SameAddress e request.policy.expected_sender request.subject

  pub check_request-RequestFits : check_request e request ≡ next tt → RequestFits
  unfolding check_request
  check_request-RequestFits h =
      elim (Option-cases (compute_evidence_policy_commitment e request.policy)) [
        | inl missing ↦ absurd (ground arith)
        | inr (c, found) ↦ record {
          schema = ground arith;
          commitment = c;
          computed = found;
          committed = ground arith;
          chain = ground arith;
          evidence = ground arith;
          subject =
              (same_address_iff e request.policy.expected_sender request.subject).0 (ground arith);
        }
      ]

  -- The escrow is in the state that the submission mode wants, and has no claim's evidence yet.
  abbrev pub StateFits : ConditionSubmissionMode → EscrowDisputeContext → Type 0
  StateFits dispute_evidence escrow =
      (escrow.state ≡ 3)
      × (same_hex escrow.active_evidence_commitment request.evidence_commitment ≡ true)
  StateFits direct_settlement escrow =
      (escrow.state ≡ 1)
      × (escrow.direct_condition_settlement ≡ true)
      × (same_hex escrow.active_evidence_commitment e.zero_hash ≡ true)
  StateFits prerequisite_record escrow =
      (escrow.state ≡ 1)
      × (escrow.direct_condition_settlement ≡ false)
      × (same_hex escrow.active_evidence_commitment e.zero_hash ≡ true)

  pub record EscrowFits (escrow : EscrowDisputeContext) : Type 0 where
    pub address : SameAddress e escrow.escrow_address request.escrow_address
    pub agreement : same_hex escrow.agreement_commitment request.agreement_commitment ≡ true
    pub policy :
        same_hex escrow.evidence_policy_commitment request.evidence_policy_commitment ≡ true
    pub state : StateFits (mode_of request) escrow
    pub participant :
        SameAddress e request.subject escrow.buyer ⊎ SameAddress e request.subject escrow.seller

  check_mode-StateFits :
      (mode : ConditionSubmissionMode) (escrow : EscrowDisputeContext)
      → check_mode e request mode escrow false ≡ next tt
      → StateFits mode escrow
  unfolding check_mode
  check_mode-StateFits dispute_evidence escrow h = ground arith
  check_mode-StateFits direct_settlement escrow h = ground arith
  check_mode-StateFits prerequisite_record escrow h = ground arith

  check_escrow-EscrowFits :
      (escrow : EscrowDisputeContext)
      → check_escrow e request (mode_of request) escrow false ≡ next tt
      → EscrowFits escrow
  unfolding check_escrow
  check_escrow-EscrowFits escrow h = record {
    address = (same_address_iff e escrow.escrow_address request.escrow_address).0 (ground arith);
    agreement = ground arith;
    policy = ground arith;
    state = check_mode-StateFits (mode_of request) escrow (ground arith);
    participant = ground (
      arith,
      same_address_iff e request.subject escrow.buyer,
      same_address_iff e request.subject escrow.seller,
    );
  }

  -- The claim stands for evidence that the proof service returned and the evaluator accepted.
  pub record ClaimFits (claim : VerifiedEvidenceClaim) : Type 0 where
    pub tx : VerifiedSourceTransaction
    pub evidence : InterpretedEvidence
    pub before : Trace
    pub proved : s.verify before request ≡ next tx
    pub interpreted : s.evaluate tx request.policy ≡ next evidence
    pub chain : tx.source_chain_key ≡ request.source_chain_key
    pub hash : same_hex tx.source_transaction_hash request.transaction_hash ≡ true
    pub kind : same_hex evidence.evidence_type request.evidence_type ≡ true
    pub subject : SameAddress e evidence.subject request.subject
    pub made : make_claim e request tx evidence ≡ next claim

  pub check_transaction-eqs :
      (tx : VerifiedSourceTransaction)
      → check_transaction e request tx ≡ next tt
      → (tx.source_chain_key ≡ request.source_chain_key)
        × (same_hex tx.source_transaction_hash request.transaction_hash ≡ true)
  unfolding check_transaction
  check_transaction-eqs tx h = ground arith

  pub check_interpretation-eqs :
      (ev : InterpretedEvidence)
      → check_interpretation e request ev ≡ next tt
      → (same_hex ev.evidence_type request.evidence_type ≡ true)
        × SameAddress e ev.subject request.subject
  unfolding check_interpretation
  check_interpretation-eqs ev h =
      (ground arith, (same_address_iff e ev.subject request.subject).0 (ground arith))

  -- The registry answered that the claim is not consumed and its evidence is not bound.
  pub record Unclaimed (claim : VerifiedEvidenceClaim) : Type 0 where
    pub id : String
    pub key : String
    pub identified : compute_claim_id e claim ≡ some id
    pub keyed : compute_source_evidence_key e claim ≡ some key
    pub before : Trace
    pub bound : String
    pub not_consumed : s.is_claim_consumed before id ≡ some false
    pub answered : s.source_evidence_escrow before key ≡ some bound
    pub unbound : SameAddress e bound e.zero_address

  -- Everything that is known of a claim when it is submitted.
  pub record Authorized (claim : VerifiedEvidenceClaim) : Type 0 where
    pub request_fits : RequestFits
    pub claim_fits : ClaimFits claim
    pub unclaimed : Unclaimed claim
    pub escrow : EscrowDisputeContext
    pub read_at : Trace
    pub read : s.read_dispute_context read_at request.escrow_address ≡ some escrow
    pub escrow_fits : EscrowFits escrow

  -- Only a submission asks for anything.
  abbrev pub IsPermitted : Call → Type 0
  IsPermitted (submit mode claim) = (mode ≡ mode_of request) × Authorized claim
  IsPermitted _ = Unit

  replay_test-false :
      (claim : VerifiedEvidenceClaim) (c : Option Bool) (b : Option String)
      → replay_test e s claim c b ≡ next false
      → (c ≡ some false) × (x : String) × (b ≡ some x) × SameAddress e x e.zero_address
  unfolding replay_test
  replay_test-false claim (some c) (some b) h =
      (ground arith, b, refl, (same_address_iff e b e.zero_address).0 (ground arith))
  replay_test-false claim (some c) none h = cc
  replay_test-false claim none b h = cc

  module _ (claim : VerifiedEvidenceClaim) (id : String) (t : Trace) where
    abbrev asked : String → Trace
    asked key = evidence_escrow key ∷ claim_consumed id ∷ t

    authorize-steps :
        (u : Trace) (key : String) (escrow : EscrowDisputeContext)
        → compute_source_evidence_key e claim ≡ some key
        → s.read_dispute_context (asked key) request.escrow_address ≡ some escrow
        → authorize e s request claim id t ≡ (next false, u)
        → (replay_test e s claim (s.is_claim_consumed t id) (s.source_evidence_escrow t key)
            ≡ next false)
          × (check_escrow e request (mode_of request) escrow false ≡ next tt)
    unfolding authorize check_replay ◌>>=◌ perform
    authorize-steps u key escrow keyed read h = ground arith

    authorize-reads :
        (u : Trace)
        → authorize e s request claim id t ≡ (next false, u)
        → (key : String) × (compute_source_evidence_key e claim ≡ some key)
          × (escrow : EscrowDisputeContext) × (s.read_dispute_context
                (asked key)
                request.escrow_address
              ≡ some escrow)
    unfolding authorize check_replay ◌>>=◌ perform
    authorize-reads u h = elim (Option-cases (compute_source_evidence_key e claim)) [
      | inl missing ↦ absurd (ground arith)
      | inr (key, keyed) ↦
          elim (Option-cases (s.read_dispute_context (asked key) request.escrow_address)) [
            | inl missing ↦ absurd (ground arith)
            | inr (escrow, read) ↦ (key, keyed, escrow, read)
          ]
    ]

    pub authorize-Authorized :
        (u : Trace)
        → RequestFits
        → ClaimFits claim
        → compute_claim_id e claim ≡ some id
        → authorize e s request claim id t ≡ (next false, u)
        → Authorized claim
    authorize-Authorized u request_fits claim_fits identified h =
        let (key, keyed, escrow, read) = authorize-reads u h in
        let (replay, checked) = authorize-steps u key escrow keyed read h in
        let (fresh, bound, answered, unbound) = replay_test-false claim _ _ replay in
        record {
          request_fits = request_fits;
          claim_fits = claim_fits;
          unclaimed = record {
            id = id;
            key = key;
            identified = identified;
            keyed = keyed;
            before = t;
            bound = bound;
            not_consumed = fresh;
            answered = answered;
            unbound = unbound;
          };
          escrow = escrow;
          read_at = asked key;
          read = read;
          escrow_fits = check_escrow-EscrowFits escrow checked;
        }
