-- ===== src/WorkEvidence/Examples.antt =====
-- A seller's evidence that the buyer accepts.
use veyronis.Prelude.{String, Bool, ◌≡◌, refl, true, none, some, [], ◌∷◌, find}
use veyronis.Prelude.Flow.{next}
use veyronis.Prelude.Flow.Run.{◌>>=◌}
use veyronis.Prelude.Text.{to_lower_case, text_length}
use veyronis.Samples.{
  sample_ethers, payer, payee, judge, vault, sample_hash, native_policy, address_of,
}
use veyronis.Shared.Agreement.{
  AgreementMetadata, AgreementDeliverable, DeploymentStatus, application_work_evidence, photo,
  agreement_lifecycle_mode,
}
use veyronis.Condition.Admission.{role_for}
use veyronis.WorkEvidence.{
  get_submission, WorkEvidenceSubmissionInput, WorkEvidenceReview, WorkEvidenceSubmission,
  SubmissionStatus, accept, reject, work_evidence_submission_input_schema,
  work_evidence_review_schema,
}
use veyronis.WorkEvidence.Service.{submit, review}
use veyronis.WorkEvidence.Decided.{Holds, submits, reviews, after_calls, after_calls-Holds}
use veyronis.WorkEvidence.Reviewed.{IsReviewed, review-IsReviewed}

abbrev work : AgreementDeliverable
work = record {
  id = "d";
  title = "Photos";
  description = "";
  required = true;
  active = true;
  position = 0;
  evidence_requirements =
      record {
        id = "r";
        label = "Front";
        kind = photo;
        required = true;
        configuration = [];
        position = 0;
      }
      ∷ [];
}

abbrev agreement : AgreementMetadata
agreement = record {
  terms = record {
    buyer = payer;
    seller = payee;
    arbitrator = judge;
    required_amount = "1000";
    agreement_nonce = sample_hash;
    evidence_registry = vault;
    policy = native_policy;
    agreement_mode = application_work_evidence;
    deliverables = some (work ∷ []);
  };
  id = "a";
  escrow_address = some vault;
  agreement_commitment = "0xAA";
  evidence_policy_commitment = "0xBB";
  deployment_transaction_hash = none;
  deployment_block_number = none;
  deployment_status = DeploymentStatus.deployed;
  deployment_error = none;
  created_at = 1;
  updated_at = 1;
}

abbrev uuid : String → Bool
uuid s = true

abbrev input : WorkEvidenceSubmissionInput
input = record {
  requirement_id = "r";
  value = "https://example.org/front.jpg";
  content_hash = none;
  mime_type = none;
  byte_size = none;
}

abbrev sent : WorkEvidenceSubmission
sent = record {
  id = "s";
  agreement_id = "a";
  submitter = payee;
  input = input;
  status = SubmissionStatus.submitted;
  review_note = none;
  submitted_at = 5;
  reviewed_at = none;
  updated_at = 5;
}

abbrev decided : WorkEvidenceSubmission
decided = record sent {
  status = SubmissionStatus.accepted;
  review_note = some "Good";
  reviewed_at = some 9;
  updated_at = 9;
}

abbrev good : WorkEvidenceReview
good = record { status = accept; review_note = some "Good" }

submitted_there :
    submit sample_ethers uuid (some agreement) "s" "a" payee input 5 [] ≡ (next sent, sent ∷ [])
unfolding submit address_of to_lower_case text_length agreement_lifecycle_mode find ◌>>=◌
    work_evidence_submission_input_schema
submitted_there = refl

reviewed_there :
    review sample_ethers uuid (some agreement) "a" "s" payer good 9 (sent ∷ [])
    ≡ (next decided, decided ∷ [])
unfolding review role_for address_of to_lower_case text_length agreement_lifecycle_mode find ◌>>=◌
    work_evidence_review_schema
reviewed_there = refl

review-IsReviewed_example :
    IsReviewed sample_ethers uuid
      (some agreement)
      "a"
      "s"
      payer
      good
      9
      (sent ∷ [])
      (decided ∷ [])
      decided
review-IsReviewed_example =
    review-IsReviewed sample_ethers uuid (some agreement) "a" "s" payer good 9 (sent ∷ [])
      (decided ∷ []) decided reviewed_there

there : Holds "s" decided (decided ∷ [])
unfolding find get_submission
there = refl

after_calls-Holds_example : Holds "s" decided (
    after_calls "s" decided sample_ethers uuid
      (reviews (some agreement) "a" "s" payer (record good { status = reject }) 10
        ∷ submits (some agreement) "s" "a" payee input 11
        ∷ [])
      (decided ∷ []))
after_calls-Holds_example =
    after_calls-Holds "s" decided sample_ethers uuid
      (reviews (some agreement) "a" "s" payer (record good { status = reject }) 10
        ∷ submits (some agreement) "s" "a" payee input 11
        ∷ [])
      (decided ∷ []) refl there
