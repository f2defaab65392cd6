-- ===== src/WorkEvidence/Reviewed.antt =====
-- What a review that backend/src/agreements/work-evidence-service.ts returns stands for.
use veyronis.Prelude.{
  ℕ, String, ◌≡◌, ◌≢◌, refl, sym, ap, subst, ◌∙◌, Bool, true, false, Option, none, some, arith, inl,
  inr, Bool-cases,
}
use veyronis.Prelude.Flow.{next, next-injective}
use veyronis.Prelude.Flow.Run.{bind-eq-next, lift-eq-next, require-eq-next}
use veyronis.Prelude.Text.{truthy, IsWrittenOver, nothing_given, empty_given, given}
use veyronis.Ethers.{Ethers}
use veyronis.Shared.Agreement.{
  AgreementMetadata, AgreementLifecycleMode, blockchain_condition_only, DeploymentStatus,
}
use veyronis.Shared.Escrow.{ParticipantRole, buyer}
use veyronis.Dashboard.{metadata_mode, is_blockchain_only}
use veyronis.Condition.Admission.{is_deployed, role_for}
use veyronis.Condition.Admission.Roles.{is_deployed-eq, IsBuyer, role_for-IsBuyer}
use veyronis.WorkEvidence.{
  WorkEvidenceReview, WorkEvidenceSubmission, Submissions, get_submission, set, apply_review,
  reviewed_status, note_or, review_submission, work_evidence_review_schema, ReviewStatus, accept,
  reject, SubmissionStatus, submitted, accepted, rejected,
}
use veyronis.WorkEvidence.Service.{
  require_agreement, require_work_mode, review, read_submission, record_review, is_submitted,
  is_buyer_role, parse,
}
use veyronis.WorkEvidence.Decided.{
  get_submission-set, get_submission-other, read_submission-eqs, get_submission-id,
}
use text.Mathlib.Text.{◌==◌}
use text.Mathlib.TextEquality.{eq_iff}

require_agreement-next :
    (stored : Option AgreementMetadata) (m : AgreementMetadata)
    → require_agreement stored ≡ next m
    → (stored ≡ some m) × (is_deployed m.deployment_status ≡ true)
unfolding require_agreement
require_agreement-next none m h = cc
require_agreement-next (some x) m h = elim (Bool-cases (is_deployed x.deployment_status)) [
  | inl t ↦
      let same : x ≡ m = next-injective (rw t at h) in
      (ap some same, subst (λ y. is_deployed y.deployment_status ≡ true) same t)
  | inr f ↦ absurd (ground arith)
]

is_buyer-eq : (role : Option ParticipantRole) → is_buyer_role role ≡ true → role ≡ some buyer
is_buyer-eq none h = cc
is_buyer-eq (some buyer) h = refl
is_buyer-eq (some ParticipantRole.seller) h = cc
is_buyer-eq (some ParticipantRole.arbitrator) h = cc

module _ (e : Ethers) (uuid : String → Bool) where
  pub data IsDecision : ReviewStatus → SubmissionStatus → Type 0 where
    acceptance : IsDecision accept accepted
    rejection : IsDecision reject rejected

  -- The submission with the decision, the time and, where one is given, the note of a review.
  pub record HasReview (old : WorkEvidenceSubmission) (input : WorkEvidenceReview) (now : ℕ)
      (w : WorkEvidenceSubmission) : Type 0 where
    pub decision : IsDecision input.status w.status
    pub note : IsWrittenOver input.review_note old.review_note w.review_note
    pub reviewed_at : w.reviewed_at ≡ some now
    pub updated_at : w.updated_at ≡ now
    pub id : w.id ≡ old.id
    pub agreement_id : w.agreement_id ≡ old.agreement_id
    pub submitter : w.submitter ≡ old.submitter
    pub content : w.input ≡ old.input
    pub submitted_at : w.submitted_at ≡ old.submitted_at

  reviewed_status-IsDecision : (status : ReviewStatus) → IsDecision status (reviewed_status status)
  reviewed_status-IsDecision accept = acceptance
  reviewed_status-IsDecision reject = rejection

  note-IsWrittenOver : (o old : Option String) → IsWrittenOver o old (note_or (truthy o) old)
  note-IsWrittenOver none old = nothing_given
  note-IsWrittenOver (some String.[]) old = empty_given
  note-IsWrittenOver (some (String.◌∷◌ c s)) old = given c s

  apply_review-HasReview :
      (old : WorkEvidenceSubmission) (input : WorkEvidenceReview) (now : ℕ)
      → HasReview old input now (apply_review old input now)
  unfolding apply_review
  apply_review-HasReview old input now = record {
    decision = reviewed_status-IsDecision input.status;
    note = note-IsWrittenOver input.review_note old.review_note;
    reviewed_at = refl;
    updated_at = refl;
    id = refl;
    agreement_id = refl;
    submitter = refl;
    content = refl;
    submitted_at = refl;
  }

  pub record IsReviewed (stored : Option AgreementMetadata)
      (agreement_id submission_id wallet : String) (input : WorkEvidenceReview) (now : ℕ)
      (s t : Submissions) (w : WorkEvidenceSubmission) : Type 0 where
    pub agreement : AgreementMetadata
    pub found : stored ≡ some agreement
    pub deployed : agreement.deployment_status ≡ DeploymentStatus.deployed
    pub works : metadata_mode e agreement ≢ blockchain_condition_only
    pub by_buyer : IsBuyer e agreement wallet
    pub old : WorkEvidenceSubmission
    pub held : get_submission submission_id s ≡ some old
    pub own : old.agreement_id ≡ agreement_id
    pub undecided : old.status ≡ submitted
    pub valid : work_evidence_review_schema input ≡ true
    pub result : HasReview old input now w
    pub now_held : get_submission submission_id t ≡ some w
    pub others : (id : String) → submission_id ≢ id → get_submission id t ≡ get_submission id s

  works-eq :
      (mode : AgreementLifecycleMode)
      → is_blockchain_only mode ≡ false
      → mode ≢ blockchain_condition_only
  works-eq mode h k = let t = ap is_blockchain_only k in ground arith

  is_submitted-eq : (status : SubmissionStatus) → is_submitted status ≡ true → status ≡ submitted
  is_submitted-eq status h = ground arith

  parse-true : (b : Bool) → parse b ≡ next tt → b ≡ true
  parse-true true h = refl
  parse-true false h = cc

  work_mode-false :
      (m : AgreementMetadata)
      → require_work_mode e uuid m ≡ next tt
      → is_blockchain_only (metadata_mode e m) ≡ false
  unfolding require_work_mode
  work_mode-false m h = elim (Bool-cases (is_blockchain_only (metadata_mode e m))) [
    | inl t ↦ absurd (ground arith)
    | inr f ↦ f
  ]

  record_review-eqs :
      (submission_id : String) (input : WorkEvidenceReview) (now : ℕ) (s t : Submissions)
      (old w : WorkEvidenceSubmission)
      → get_submission submission_id s ≡ some old
      → record_review e uuid submission_id input now s ≡ (next w, t)
      → (w ≡ apply_review old input now) × (t ≡ set (apply_review old input now) s)
  unfolding record_review review_submission
  record_review-eqs submission_id input now s t old w held h =
      let k = rw held at h in (sym (next-injective (ap (λ x. x.0) k)), sym (ap (λ x. x.1) k))

  outcome :
      (submission_id : String) (input : WorkEvidenceReview) (now : ℕ) (s t : Submissions)
      (old w : WorkEvidenceSubmission)
      → old.id ≡ submission_id
      → w ≡ apply_review old input now
      → t ≡ set (apply_review old input now) s
      → (get_submission submission_id t ≡ some w)
        × ((id : String) → submission_id ≢ id → get_submission id t ≡ get_submission id s)
  unfolding apply_review
  outcome submission_id input now s t old w is_it result last =
      let x = apply_review old input now in
      rw (result, last, ← is_it)
        (get_submission-set x s, λ id other. get_submission-other id x s other)

  -- A review that is returned is the buyer's, of a deployed agreement that is not
  -- blockchain-only, on a submission of that agreement that was not decided. The submission that is
  -- returned, and then stored, is accepted or rejected as the review says, at this time and with
  -- its note, if it has one; the rest of it and all other submissions stay as they were.
  pub review-IsReviewed :
      (stored : Option AgreementMetadata) (agreement_id submission_id wallet : String)
      (input : WorkEvidenceReview) (now : ℕ) (s t : Submissions) (w : WorkEvidenceSubmission)
      → review e uuid stored agreement_id submission_id wallet input now s ≡ (next w, t)
      → IsReviewed stored agreement_id submission_id wallet input now s t w
  unfolding review
  review-IsReviewed stored agreement_id submission_id wallet input now s t w h =
      let (m, required, h1) = lift-eq-next (require_agreement stored) _ s h in
      let (found, deployed) = require_agreement-next stored m required in
      let (_, moded, h2) = lift-eq-next (require_work_mode e uuid m) _ s h1 in
      let (role, roled, h3) = lift-eq-next (role_for e m wallet) _ s h2 in
      let (is_b, h4) = require-eq-next (is_buyer_role role) _ _ s h3 in
      let (old, u, read, h5) = bind-eq-next (read_submission e uuid submission_id) _ s h4 in
      let (held, same) = read_submission-eqs submission_id old e uuid submission_id s u old read in
      let (own, h6) = require-eq-next (old.agreement_id == agreement_id) _ _ u h5 in
      let (undecided, h7) = require-eq-next (is_submitted old.status) _ _ u h6 in
      let (_, parsed, h8) = lift-eq-next (parse (work_evidence_review_schema input)) _ u h7 in
      let held_u = subst (λ x. get_submission submission_id x ≡ some old) same held in
      let (result, last) = record_review-eqs submission_id input now u t old w held_u h8 in
      let set_there =
        outcome submission_id input now u t old w (get_submission-id submission_id s old held)
          result last in
      record {
        agreement = m;
        found = found;
        deployed = is_deployed-eq m.deployment_status deployed;
        works = works-eq (metadata_mode e m) (work_mode-false m moded);
        by_buyer = role_for-IsBuyer e m wallet (roled ∙ ap next (is_buyer-eq role is_b));
        old = old;
        held = held;
        own = (eq_iff old.agreement_id agreement_id).0 own;
        undecided = is_submitted-eq old.status undecided;
        valid = parse-true (work_evidence_review_schema input) parsed;
        result =
            subst (HasReview old input now) (sym result) (apply_review-HasReview old input now);
        now_held = set_there.0;
        others = λ id other. set_there.1 id other ∙ ap (get_submission id) (sym same);
      }
