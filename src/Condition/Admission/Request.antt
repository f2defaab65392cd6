-- ===== src/Condition/Admission/Request.antt =====
-- What a proof request of backend/src/agreements/agreement-condition-service.ts asks for.
use veyronis.Prelude.{String, ◌≡◌, refl, subst, Option, some}
use veyronis.Prelude.Flow.{next, or_throw-eq-next, next-injective}
use veyronis.Ethers.{Ethers}
use veyronis.Shared.Agreement.{
  AgreementMetadata, AgreementLifecycleMode, blockchain_condition_only, application_work_evidence,
  hybrid,
}
use veyronis.Dashboard.{metadata_mode}
use veyronis.Attestcoin.{
  ConditionSubmissionMode, direct_settlement, prerequisite_record, AttestcoinProofRequest,
}
use veyronis.Attestcoin.Commitment.{compute_evidence_commitment}
use veyronis.Condition.Admission.{proof_request, mode_of_submission}

module _ (e : Ethers) where
  -- A blockchain-only agreement is settled directly, and in the others a condition is recorded.
  abbrev pub ModeFits : AgreementLifecycleMode → Option ConditionSubmissionMode → Type 0
  ModeFits blockchain_condition_only mode = mode ≡ some direct_settlement
  ModeFits application_work_evidence mode = mode ≡ some prerequisite_record
  ModeFits hybrid mode = mode ≡ some prerequisite_record

  -- A request for a transaction by the agreement's terms.
  pub record IsRequest (m : AgreementMetadata) (hash : String) (r : AttestcoinProofRequest)
      : Type 0 where
    pub escrow : String
    pub stored_escrow : m.escrow_address ≡ some escrow
    pub address : e.get_address escrow ≡ some r.escrow_address
    pub chain : r.source_chain_key ≡ m.policy.source_chain_key
    pub transaction : r.transaction_hash ≡ hash
    pub agreement : r.agreement_commitment ≡ m.agreement_commitment
    pub policy_commitment : r.evidence_policy_commitment ≡ m.evidence_policy_commitment
    pub evidence_commitment :
        compute_evidence_commitment e m.evidence_policy_commitment m.policy.evidence_type
          m.policy.source_chain_key hash m.policy.expected_sender
        ≡ some r.evidence_commitment
    pub evidence_type : r.evidence_type ≡ m.policy.evidence_type
    pub subject : r.subject ≡ m.policy.expected_sender
    pub policy : r.policy ≡ m.policy
    pub mode : ModeFits (metadata_mode e m) r.condition_submission

  mode_of-ModeFits :
      (mode : AgreementLifecycleMode) → ModeFits mode (some (mode_of_submission e mode))
  unfolding mode_of_submission
  mode_of-ModeFits blockchain_condition_only = refl
  mode_of-ModeFits application_work_evidence = refl
  mode_of-ModeFits hybrid = refl

  pub proof_request-IsRequest :
      (m : AgreementMetadata) (hash : String) (r : AttestcoinProofRequest)
      → proof_request e m hash ≡ next r
      → IsRequest m hash r
  unfolding proof_request
  proof_request-IsRequest m hash r h =
      let (escrow, stored_escrow, h1) = or_throw-eq-next m.escrow_address _ h in
      let (address, checked, h2) = or_throw-eq-next (e.get_address escrow) _ h1 in
      let (commitment, committed, h3) =
        or_throw-eq-next
          (compute_evidence_commitment e m.evidence_policy_commitment m.policy.evidence_type
            m.policy.source_chain_key hash m.policy.expected_sender)
          _ h2 in
      subst (IsRequest m hash) (next-injective h3) (record {
        escrow = escrow;
        stored_escrow = stored_escrow;
        address = checked;
        chain = refl;
        transaction = refl;
        agreement = refl;
        policy_commitment = refl;
        evidence_commitment = committed;
        evidence_type = refl;
        subject = refl;
        policy = refl;
        mode = mode_of-ModeFits (metadata_mode e m);
      })
