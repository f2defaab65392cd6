-- ===== src/WorkEvidence/Service.antt =====
-- backend/src/agreements/work-evidence-service.ts over the repository in memory. What the agreement
-- repository answers, the new id and the time are arguments; `uuid` is the package zod's test. The
-- service's own errors are failures with their status, a schema's refusal is `threw`.
use veyronis.Prelude.{
  ℕ, String, Bool, true, false, not, Option, none, some, List, [], ◌∷◌, find, if◌then◌else◌,
  is_some, get_or,
}
use veyronis.Prelude.Flow
use veyronis.Prelude.Flow.{Flow, next, failed, threw, or_throw, or_fail}
use veyronis.Prelude.Flow.Run.{Run, lift, require, ◌>>=◌, ◌>>◌}
use veyronis.Ethers.{Ethers}
use veyronis.Shared.Agreement.{
  AgreementMetadata, AgreementDeliverable, AgreementEvidenceRequirement,
}
use veyronis.Shared.Escrow.{ParticipantRole, is_buyer}
use veyronis.Dashboard.{metadata_mode, is_blockchain_only}
use veyronis.Condition.Admission.{ServiceError, service_error, is_deployed, role_for}
use veyronis.WorkEvidence.{
  WorkEvidenceSubmissionInput, WorkEvidenceReview, WorkEvidenceSubmission, SubmissionStatus,
  submitted, work_evidence_submission_input_schema, work_evidence_review_schema, Submissions,
  get_submission, create_submission, list_submissions, review_submission,
}
use text.Mathlib.Text.{◌==◌}

-- The first deliverable that has a requirement of this id, and whether it is active.
abbrev active_or : Bool → Option AgreementEvidenceRequirement → Option Bool → Option Bool
active_or active none rest = rest
active_or active (some r) rest = some active

unfoldable pub find_active : String → List AgreementDeliverable → Option Bool
find_active id [] = none
find_active id (d ∷ ds) =
    let rest = find_active id ds in
    active_or d.active (find (λ r. r.id == id) d.evidence_requirements) rest

abbrev pub is_active : Option Bool → Bool
is_active none = false
is_active (some active) = active

unfoldable pub find_requirement : AgreementMetadata → String → Option Bool
unfolding find_active
find_requirement m id = find_active id (get_or m.deliverables [])

-- `schema.parse(input)`.
abbrev pub parse : Bool → Flow ServiceError (Unit {0})
parse true = next tt
parse false = threw

abbrev pub is_buyer_role : Option ParticipantRole → Bool
is_buyer_role none = false
is_buyer_role (some role) = is_buyer role

abbrev pub is_submitted : SubmissionStatus → Bool
is_submitted submitted = true
is_submitted _ = false

abbrev pub Evidencing : Type 0 → Type 0
Evidencing A = Run Submissions ServiceError A

unfoldable pub require_agreement : Option AgreementMetadata → Flow ServiceError AgreementMetadata
require_agreement none = failed (service_error 404 "Agreement not found.")
require_agreement (some m) =
    if is_deployed m.deployment_status
    then next m
    else failed (service_error 409 "Work evidence requires a deployed agreement.")

module _ (e : Ethers) (uuid : String → Bool) where
  unfoldable pub require_work_mode : AgreementMetadata → Flow ServiceError (Unit {0})
  require_work_mode m =
      Flow.require (not (is_blockchain_only (metadata_mode e m)))
        (service_error 409 "Blockchain-only agreements use external condition verification.")

  unfoldable pub submit :
      Option AgreementMetadata
      → String
      → String
      → String
      → WorkEvidenceSubmissionInput
      → ℕ
      → Evidencing WorkEvidenceSubmission
  unfolding require_agreement require_work_mode find_requirement create_submission
  submit stored id agreement_id wallet input now = do
    m ← lift (require_agreement stored)
    lift (require_work_mode m)
    submitter ← lift (or_throw (e.get_address wallet))
    seller ← lift (or_throw (e.get_address m.seller))
    require (submitter == seller)
        (service_error 403 "Only the agreement seller can submit work evidence.")
    lift (parse (work_evidence_submission_input_schema uuid input))
    require (is_active (find_requirement m input.requirement_id))
        (service_error 404 "Evidence requirement was not found for this agreement.")
    create_submission (record {
      id = id;
      agreement_id = agreement_id;
      submitter = submitter;
      input = input;
      status = submitted;
      review_note = none;
      submitted_at = now;
      reviewed_at = none;
      updated_at = now;
    })

  unfoldable pub read_submissions : String → Bool → Evidencing Submissions
  unfolding list_submissions
  read_submissions agreement_id only_blockchain s =
      (next (if only_blockchain then [] else list_submissions agreement_id s), s)

  unfoldable pub list : Option AgreementMetadata → String → String → Evidencing Submissions
  unfolding require_agreement read_submissions
  list stored agreement_id wallet = do
    m ← lift (require_agreement stored)
    role ← lift (role_for e m wallet)
    require (is_some role) (service_error 403 "Wallet is not an agreement participant.")
    read_submissions agreement_id (is_blockchain_only (metadata_mode e m))

  missing_submission : ServiceError
  missing_submission = service_error 404 "Evidence submission was not found for this agreement."

  unfoldable pub read_submission : String → Evidencing WorkEvidenceSubmission
  unfolding get_submission missing_submission
  read_submission id s = (or_fail (get_submission id s) missing_submission, s)

  unfoldable pub record_review : String → WorkEvidenceReview → ℕ → Evidencing WorkEvidenceSubmission
  unfolding review_submission
  record_review id r now s =
      let (o, t) = review_submission id r now s in
      (or_fail o (service_error 409 "Evidence submission has already been reviewed."), t)

  unfoldable pub review :
      Option AgreementMetadata
      → String
      → String
      → String
      → WorkEvidenceReview
      → ℕ
      → Evidencing WorkEvidenceSubmission
  unfolding require_agreement require_work_mode read_submission record_review missing_submission
  review stored agreement_id submission_id wallet input now = do
    m ← lift (require_agreement stored)
    lift (require_work_mode m)
    role ← lift (role_for e m wallet)
    require (is_buyer_role role) (service_error 403 "Only the buyer can review work evidence.")
    v ← read_submission submission_id
    require (v.agreement_id == agreement_id) missing_submission
    require (is_submitted v.status)
        (service_error 409 "Evidence submission has already been reviewed.")
    lift (parse (work_evidence_review_schema input))
    record_review submission_id input now
