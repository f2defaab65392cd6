-- ===== src/WorkEvidence.antt =====
-- Work evidence: the types and schemas of packages/shared/src/index.ts, and the repository in memory
-- of backend/src/agreements/work-evidence-repository.ts, a list of the values of its map in the order
-- of their insertion. Times are milliseconds, whose order is that of their ISO texts.
pub mod Service
pub mod Decided
pub mod Examples
pub mod Reviewed
use veyronis.Prelude.{
  ℕ, String, Bool, true, false, not, ◌&&◌, Option, none, some, List, [], ◌∷◌, leb, find, filter,
  if◌then◌else◌, is_some,
}
use veyronis.Prelude.Text.{text_length, truthy}
use veyronis.Prelude.Flow.{Flow, next, failed, threw}
use veyronis.Prelude.Flow.Run.{Run}
use veyronis.Shared.Policy.{uint_string_schema}
use veyronis.Condition.Admission.{ServiceError}
use text.Mathlib.Text.{◌==◌}

pub data SubmissionStatus : Type 0 where
  submitted accepted rejected : SubmissionStatus

pub data ReviewStatus : Type 0 where
  accept reject : ReviewStatus

pub record WorkEvidenceSubmissionInput : Type 0 where
  pub requirement_id : String
  pub value : String
  pub content_hash : Option String
  pub mime_type : Option String
  pub byte_size : Option String

pub record WorkEvidenceReview : Type 0 where
  pub status : ReviewStatus
  pub review_note : Option String

pub record WorkEvidenceSubmission : Type 0 where
  pub id : String
  pub agreement_id : String
  pub submitter : String
  pub input : WorkEvidenceSubmissionInput
  pub status : SubmissionStatus
  pub review_note : Option String
  pub submitted_at : ℕ
  pub reviewed_at : Option ℕ
  pub updated_at : ℕ

-- `max(n)` of an optional text.
abbrev at_most : ℕ → Option String → Bool
at_most n none = true
at_most n (some s) = leb (text_length s) n

abbrev is_optional_uint : Option String → Bool
is_optional_uint none = true
is_optional_uint (some s) = uint_string_schema 64 s

unfoldable pub work_evidence_submission_input_schema :
    (String → Bool) → WorkEvidenceSubmissionInput → Bool
work_evidence_submission_input_schema uuid i =
    uuid i.requirement_id
    && (leb 1 (text_length i.value)
        && (leb (text_length i.value) 2048
            && (at_most 128 i.content_hash
                && (at_most 128 i.mime_type && is_optional_uint i.byte_size))))

unfoldable pub work_evidence_review_schema : WorkEvidenceReview → Bool
work_evidence_review_schema r = at_most 1000 r.review_note

abbrev pub Submissions : Type 0
Submissions = List WorkEvidenceSubmission

-- `map.get(id)`, and `map.set(v.id, v)`.
unfoldable pub get_submission : String → Submissions → Option WorkEvidenceSubmission
get_submission id s = find (λ v. v.id == id) s

unfoldable pub set : WorkEvidenceSubmission → Submissions → Submissions
set v [] = v ∷ []
set v (w ∷ s) = let rest = set v s in if w.id == v.id then v ∷ s else w ∷ rest

-- An id that is there is the error "Evidence submission already exists".
unfoldable pub create_submission :
    WorkEvidenceSubmission → Run Submissions ServiceError WorkEvidenceSubmission
unfolding get_submission set
create_submission v s = if is_some (get_submission v.id s) then (threw, s) else (next v, set v s)

-- A stable sort by the time of submission.
unfoldable pub insert : WorkEvidenceSubmission → Submissions → Submissions
insert v [] = v ∷ []
insert v (w ∷ s) =
    let rest = insert v s in if leb v.submitted_at w.submitted_at then v ∷ w ∷ s else w ∷ rest

unfoldable pub sort : Submissions → Submissions
unfolding insert
sort [] = []
sort (v ∷ s) = insert v (sort s)

unfoldable pub list_submissions : String → Submissions → Submissions
unfolding sort
list_submissions agreement_id s = sort (filter (λ v. v.agreement_id == agreement_id) s)

abbrev pub reviewed_status : ReviewStatus → SubmissionStatus
reviewed_status accept = accepted
reviewed_status reject = rejected

-- `...(review.reviewNote ? { reviewNote } : {})`.
abbrev pub note_or : Option String → Option String → Option String
note_or (some note) old = some note
note_or none old = old

unfoldable pub apply_review :
    WorkEvidenceSubmission → WorkEvidenceReview → ℕ → WorkEvidenceSubmission
apply_review v r now = record v {
  status = reviewed_status r.status;
  review_note = note_or (truthy r.review_note) v.review_note;
  reviewed_at = some now;
  updated_at = now;
}

abbrev pub review_found :
    WorkEvidenceReview
    → ℕ
    → Submissions
    → Option WorkEvidenceSubmission
    → Option WorkEvidenceSubmission × Submissions
review_found r now s none = (none, s)
review_found r now s (some v) = (some (apply_review v r now), set (apply_review v r now) s)

unfoldable pub review_submission :
    String → WorkEvidenceReview → ℕ → Submissions → Option WorkEvidenceSubmission × Submissions
unfolding get_submission set apply_review
review_submission id r now s = review_found r now s (get_submission id s)
