-- ===== src/Condition/Service/Verified.antt =====
-- What a verification that backend/src/agreements/agreement-condition-service.ts returns as
-- verified stands for, over any store whose update works as the one in memory does.
use veyronis.Prelude.{
  ℕ, String, ◌≡◌, refl, sym, ap, subst, ◌⊎◌, inl, inr, true, false, Option, none, some, arith,
  Bool-cases,
}
use veyronis.Prelude.Flow.{Flow, next, failed, threw, or_throw}
use veyronis.Prelude.Flow.Run.{lift-eq-next, pure-eq-next}
use veyronis.Ethers.{Ethers}
use veyronis.Shared.Agreement.{AgreementMetadata}
use veyronis.Shared.Chain.{verified}
use veyronis.Attestcoin.{AttestcoinProofRequest, Verification, Failure}
use veyronis.Condition.{AgreementConditionVerification}
use veyronis.Condition.Repository.{
  Store, AgreementConditionVerificationStart, AgreementConditionVerificationRecord,
  AgreementConditionVerificationUpdate, apply_update, is_status, start_verification,
  update_verification, update_found, find_verified_transaction, latest_verification, get,
}
use veyronis.Condition.Admission.{admit, proof_request}
use veyronis.Condition.Admission.Request.{IsRequest, proof_request-IsRequest}
use veyronis.Condition.Admission.Admitted.{IsAdmitted, admit-IsAdmitted}
use veyronis.Condition.Service.{
  ConditionServices, record_of, Updated, stored, missing, Attempt, verify, start_and_run,
  after_start, run_verifier, after_verifier, after_update, finish_failure, failure_result,
  verified_update, not_updated,
}

-- What an update returns is an entry with the update's fields written over it.
abbrev pub HasLawfulUpdate : {S : Type 0} → ConditionServices S → Type 0
HasLawfulUpdate {S} services =
    (id : String) (u : AgreementConditionVerificationUpdate) (s : S)
    (w : AgreementConditionVerification)
    → (services.update_verification id u s).0 ≡ stored w
    → (old : AgreementConditionVerification) × (apply_update old u ≡ w)

module _ {S : Type 0} (e : Ethers) (services : ConditionServices S) where
  -- The verifier has accepted the agreement's proof request for a transaction, and this
  -- verification holds what it answered.
  abbrev pub IsBacked : AgreementMetadata → String → AgreementConditionVerification → Type 0
  IsBacked m hash v =
      (request : AttestcoinProofRequest) × (t : S) × (result : Verification) × IsRequest e m hash
        request
      × ((services.verify_and_submit request t).0 ≡ next result)
      × (v.verified_claim_id ≡ some result.claim_id)
      × (v.verified_amount ≡ some result.verified_amount)
      × (v.verified_facts ≡ some result.verified_facts)

  -- The store held this verification for the agreement, and left it to the attempt that has it.
  abbrev pub Found : String → S → AgreementConditionVerification → Type 0
  Found agreement_id s v =
      (r : AgreementConditionVerificationRecord) × (r.agreement_id ≡ agreement_id)
      × ((services.start_verification r s).0.claimed ≡ false)
      × ((services.start_verification r s).0.verification ≡ v)

  module _ (lawful : HasLawfulUpdate services) where
    failure_result-next :
        (o : Updated) (w : AgreementConditionVerification)
        → failure_result e services o ≡ next w
        → o ≡ stored w
    unfolding failure_result not_updated
    failure_result-next (stored v) w h = ground arith
    failure_result-next missing w h = cc
    failure_result-next Updated.unique_violation w h = cc
    failure_result-next Updated.broken w h = cc

    finish_failure-status :
        (v w : AgreementConditionVerification) (f : Failure) (now : ℕ) (s s' : S)
        → finish_failure e services v f now s ≡ (next w, s')
        → is_status verified w.status ≡ false
    unfolding finish_failure apply_update
    finish_failure-status v w f now s s' h =
        let (old, same) = lawful _ _ s w (failure_result-next _ w (ap (λ x. x.0) h)) in
        subst (λ x. is_status verified x.status ≡ false) same refl

    after_update-next :
        (v w : AgreementConditionVerification) (now : ℕ) (o : Updated) (s s' : S)
        → after_update e services v now o s ≡ (next w, s')
        → is_status verified w.status ≡ true
        → o ≡ stored w
    unfolding after_update not_updated
    after_update-next v w now (stored x) s s' h is_verified = ground arith
    after_update-next v w now missing s s' h is_verified = ground arith
    after_update-next v w now Updated.unique_violation s s' h is_verified =
        let unverified = finish_failure-status v w _ now s s' h in ground arith
    after_update-next v w now Updated.broken s s' h is_verified = ground arith

    after_verifier-IsBacked :
        (v w : AgreementConditionVerification) (now : ℕ) (answer : Flow Failure Verification)
        (s s' : S)
        → after_verifier e services v now answer s ≡ (next w, s')
        → is_status verified w.status ≡ true
        → (result : Verification) × (answer ≡ next result)
          × (w.verified_claim_id ≡ some result.claim_id)
          × (w.verified_amount ≡ some result.verified_amount)
          × (w.verified_facts ≡ some result.verified_facts)
    unfolding after_verifier verified_update apply_update
    after_verifier-IsBacked v w now (next result) s s' h is_verified =
        let (old, same) = lawful _ _ s w (after_update-next v w now _ _ s' h is_verified) in
        (
          result,
          refl,
          sym (ap (λ x. x.verified_claim_id) same),
          sym (ap (λ x. x.verified_amount) same),
          sym (ap (λ x. x.verified_facts) same),
        )
    after_verifier-IsBacked v w now (failed f) s s' h is_verified =
        let unverified = finish_failure-status v w f now s s' h in ground arith
    after_verifier-IsBacked v w now threw s s' h is_verified = ground arith

    after_start-IsBacked :
        (hash : String) (m : AgreementMetadata) (now : ℕ)
        (started : AgreementConditionVerificationStart) (s s' : S)
        (w : AgreementConditionVerification)
        → after_start e services m hash now started s ≡ (next w, s')
        → is_status verified w.status ≡ true
        → ((started.claimed ≡ false) × (started.verification ≡ w)) ⊎ IsBacked m hash w
    unfolding after_start run_verifier
    after_start-IsBacked hash m now started s s' w h is_verified =
        elim (Bool-cases started.claimed) [
          | inl claimed ↦
              let (request, asked, h1) =
                lift-eq-next (proof_request e m hash)
                  (λ r. run_verifier e services started.verification now r) s (rw claimed at h) in
              let (result, answer, claim, amount, facts) =
                after_verifier-IsBacked started.verification w now
                  (services.verify_and_submit request s).0 (services.verify_and_submit request s).1
                  s' h1 is_verified in
              inr (
                request,
                s,
                result,
                proof_request-IsRequest e m hash request asked,
                answer,
                claim,
                amount,
                facts,
              )
          | inr held ↦
              let (same, unchanged) = pure-eq-next started.verification s (rw held at h) in
              inl (held, same)
        ]

    start_and_run-IsBacked :
        (agreement_id submitter hash : String) (attempt : Attempt) (m : AgreementMetadata)
        (s s' : S) (w : AgreementConditionVerification)
        → start_and_run e services agreement_id attempt submitter m hash s ≡ (next w, s')
        → is_status verified w.status ≡ true
        → Found agreement_id s w ⊎ IsBacked m hash w
    unfolding start_and_run
    start_and_run-IsBacked agreement_id submitter hash attempt m s s' w h is_verified =
        let r = record_of agreement_id submitter hash attempt in
        let started = services.start_verification r s in
        elim (after_start-IsBacked hash m attempt.verified_at started.0 started.1 s' w h
          is_verified) [ inl (held, same) ↦ inl (r, refl, held, same) | inr backed ↦ inr backed ]

    -- A verification that the service returns as verified was asked for by the seller of a
    -- deployed agreement with an external condition, with a transaction hash that was not
    -- verified for another agreement; and either the store already held it, or the verifier has
    -- accepted a request for this transaction with the agreement's own escrow, commitments, policy
    -- and mode, and the verification has the claim, the amount and the facts of that answer.
    pub verify-IsBacked :
        (agreement_id wallet input : String) (attempt : Attempt) (s s' : S)
        (w : AgreementConditionVerification)
        → verify e services agreement_id wallet input attempt s ≡ (next w, s')
        → is_status verified w.status ≡ true
        → (m : AgreementMetadata) × (hash : String) × IsAdmitted e agreement_id
            (services.get_agreement_by_id agreement_id s)
            (λ h. services.find_verified_transaction h s)
            wallet
            input
            m
            hash
          × (Found agreement_id s w ⊎ IsBacked m hash w)
    unfolding verify
    verify-IsBacked agreement_id wallet input attempt s s' w h is_verified =
        let ((m, hash), admitted, h1) =
          lift-eq-next (admit e agreement_id _ _ wallet input) _ s h in
        let (submitter, parsed, h2) = lift-eq-next (or_throw (e.get_address wallet)) _ s h1 in
        (
          m,
          hash,
          admit-IsAdmitted e agreement_id _ _ wallet input m hash admitted,
          start_and_run-IsBacked agreement_id submitter hash attempt m s s' w h2 is_verified,
        )

abbrev updated_of : Option AgreementConditionVerification → Updated
updated_of none = missing
updated_of (some v) = stored v

-- The store in memory as the service's store, with any agreements and any verifier.
abbrev pub in_memory :
    (String → Store → Option AgreementMetadata)
    → (AttestcoinProofRequest → Store → Flow Failure Verification × Store)
    → ConditionServices Store
in_memory agreements verifier = record {
  get_agreement_by_id = agreements;
  start_verification = start_verification;
  update_verification = λ id u s. let (o, s') = update_verification id u s in (updated_of o, s');
  find_verified_transaction = find_verified_transaction;
  latest_verification = latest_verification;
  verify_and_submit = verifier;
}

update_found-lawful :
    (u : AgreementConditionVerificationUpdate) (s : Store)
    (o : Option AgreementConditionVerification) (w : AgreementConditionVerification)
    → updated_of (update_found u s o).0 ≡ stored w
    → (old : AgreementConditionVerification) × (apply_update old u ≡ w)
unfolding update_found
update_found-lawful u s none w h = cc
update_found-lawful u s (some v) w h = (v, ground arith)

-- The store in memory keeps the law that the service relies on.
pub in_memory-lawful :
    (agreements : String → Store → Option AgreementMetadata)
    (verifier : AttestcoinProofRequest → Store → Flow Failure Verification × Store)
    → HasLawfulUpdate (in_memory agreements verifier)
unfolding update_verification
in_memory-lawful agreements verifier id u s w h = update_found-lawful u s (get id s) w h
