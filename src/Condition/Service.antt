-- ===== src/Condition/Service.antt =====
-- `AgreementConditionService` of backend/src/agreements/agreement-condition-service.ts over the
-- interfaces that it is built on. `S` is the state that they share; the verifier may leave it
-- changed, so what other requests do while it runs is part of its answer.
pub mod Verified
pub mod Examples
use veyronis.Prelude.{ℕ, String, ◌≡◌, Bool, Option, none, some, if◌then◌else◌}
use veyronis.Prelude.Flow
use veyronis.Prelude.Flow.{Flow, next, failed, threw}
use veyronis.Prelude.Flow.Run.{Run, pure, lift, ◌>>=◌, ◌>>◌}
use veyronis.Ethers.{Ethers}
use veyronis.Shared.Policy.{ExternalBlockchainCondition}
use veyronis.Shared.Agreement.{AgreementMetadata}
use veyronis.Shared.Chain.{verified, verification_failed}
use veyronis.Attestcoin.{AttestcoinProofRequest, Verification, Failure, failure, replay_detected}
use veyronis.Condition.{AgreementConditionVerification}
use veyronis.Condition.Repository.{
  AgreementConditionVerificationRecord, AgreementConditionVerificationStart,
  AgreementConditionVerificationUpdate,
}
use veyronis.Condition.Admission.{
  ServiceError, service_error, require_agreement, require_condition, admit, proof_request,
}

-- What `updateVerification` does: returns the verification, or `undefined`, or throws the
-- database's error 23505 of a unique index, or throws another error.
pub data Updated : Type 0 where
  stored : AgreementConditionVerification → Updated
  missing unique_violation broken : Updated

pub record ConditionServices (S : Type 0) : Type 0 where
  pub get_agreement_by_id : String → S → Option AgreementMetadata
  pub start_verification :
      AgreementConditionVerificationRecord → S → AgreementConditionVerificationStart × S
  pub update_verification : String → AgreementConditionVerificationUpdate → S → Updated × S
  pub find_verified_transaction : String → S → Option AgreementConditionVerification
  pub latest_verification : String → S → Option AgreementConditionVerification
  pub verify_and_submit : AttestcoinProofRequest → S → Flow Failure Verification × S

-- The new id and the two times of one attempt.
pub record Attempt : Type 0 where
  pub id : String
  pub now : ℕ
  pub verified_at : ℕ

-- What the service asks the store to start.
abbrev pub record_of : String → String → String → Attempt → AgreementConditionVerificationRecord
record_of agreement_id submitter hash attempt = record {
  id = attempt.id;
  agreement_id = agreement_id;
  submitter = submitter;
  transaction_hash = hash;
  submitted_at = attempt.now;
  updated_at = attempt.now;
}

module _ {S : Type 0} (e : Ethers) (services : ConditionServices S) where
  not_updated : Flow ServiceError AgreementConditionVerification
  not_updated = failed (service_error 409 "The condition verification could not be updated.")

  failure_result : Updated → Flow ServiceError AgreementConditionVerification
  unfolding not_updated
  failure_result (stored v) = next v
  failure_result missing = not_updated
  failure_result _ = threw

  unfoldable pub finish_failure :
      AgreementConditionVerification
      → Failure
      → ℕ
      → Run S ServiceError AgreementConditionVerification
  unfolding failure_result
  finish_failure v f now s =
      let (updated, s') =
        services.update_verification v.id
          (record {
            status = verification_failed;
            verified_claim_id = none;
            verified_amount = none;
            verified_facts = none;
            failure_code = some f.code;
            failure_message = some f.message;
            verified_at = none;
            updated_at = now;
          })
          s in
      (failure_result updated, s')

  verified_update : Verification → ℕ → AgreementConditionVerificationUpdate
  verified_update result now = record {
    status = verified;
    verified_claim_id = some result.claim_id;
    verified_amount = some result.verified_amount;
    verified_facts = some result.verified_facts;
    failure_code = none;
    failure_message = none;
    verified_at = some now;
    updated_at = now;
  }

  after_update :
      AgreementConditionVerification
      → ℕ
      → Updated
      → Run S ServiceError AgreementConditionVerification
  unfolding not_updated finish_failure
  after_update v now (stored w) s = (next w, s)
  after_update v now missing s = (not_updated, s)
  after_update v now unique_violation s =
      finish_failure v
        (failure replay_detected
          "This external transaction is already verified for another agreement.")
        now s
  after_update v now broken s = (threw, s)

  unfoldable pub after_verifier :
      AgreementConditionVerification
      → ℕ
      → Flow Failure Verification
      → Run S ServiceError AgreementConditionVerification
  unfolding verified_update after_update finish_failure
  after_verifier v now (next result) s =
      let (updated, s') = services.update_verification v.id (verified_update result now) s in
      after_update v now updated s'
  after_verifier v now (failed f) s = finish_failure v f now s
  after_verifier v now threw s = (threw, s)

  unfoldable pub run_verifier :
      AgreementConditionVerification
      → ℕ
      → AttestcoinProofRequest
      → Run S ServiceError AgreementConditionVerification
  unfolding after_verifier
  run_verifier v now request s =
      let (answer, s') = services.verify_and_submit request s in after_verifier v now answer s'

  unfoldable pub after_start :
      AgreementMetadata
      → String
      → ℕ
      → AgreementConditionVerificationStart
      → Run S ServiceError AgreementConditionVerification
  after_start m hash now started =
      if started.claimed
      then (lift (proof_request e m hash) >>= λ request.
          run_verifier started.verification now request)
      else pure started.verification

  unfoldable pub start_and_run :
      String
      → Attempt
      → String
      → AgreementMetadata
      → String
      → Run S ServiceError AgreementConditionVerification
  start_and_run agreement_id attempt submitter m hash s =
      let (started, s') =
        services.start_verification (record_of agreement_id submitter hash attempt) s in
      after_start m hash attempt.verified_at started s'

  unfoldable pub verify :
      String → String → String → Attempt → Run S ServiceError AgreementConditionVerification
  verify agreement_id wallet input attempt s =
      (do
        (m, hash) ← lift (
            admit e agreement_id (services.get_agreement_by_id agreement_id s)
              (λ h. services.find_verified_transaction h s) wallet input)
        submitter ← lift (Flow.or_throw (e.get_address wallet))
        start_and_run agreement_id attempt submitter m hash)
        s
