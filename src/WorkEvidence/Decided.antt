-- ===== src/WorkEvidence/Decided.antt =====
-- What is reviewed once stays as it is: backend/src/agreements/work-evidence-service.ts over any
-- history of its calls.
use veyronis.Prelude.{
  ℕ, String, ◌≡◌, ◌≢◌, refl, sym, ap, subst, ◌∙◌, Bool, true, false, Option, none, some, List, [],
  ◌∷◌, arith, find, Bool-cases, Option-cases, inl, inr, some-injective, find-eq-some,
}
use veyronis.Prelude.Flow.{next, or_fail-next}
use veyronis.Prelude.Flow.Run.{step-state, lift-state, require-state}
use veyronis.Ethers.{Ethers}
use veyronis.Shared.Agreement.{AgreementMetadata}
use veyronis.WorkEvidence.{
  WorkEvidenceSubmissionInput, WorkEvidenceReview, WorkEvidenceSubmission, Submissions,
  get_submission, set, create_submission, review_submission, review_found, apply_review,
}
use veyronis.WorkEvidence.Service.{submit, review, read_submission, record_review, is_submitted}
use text.Mathlib.Text.{◌==◌}
use text.Mathlib.TextEquality.{eq_iff}

not_same : (a b : String) → a ≢ b → (a == b) ≡ false
not_same a b h = elim (Bool-cases (a == b)) [ inl t ↦ absurd (h ((eq_iff a b).0 t)) | inr f ↦ f ]

-- What is set is found, and nothing else is touched.
pub get_submission-set :
    (v : WorkEvidenceSubmission) (s : Submissions) → get_submission v.id (set v s) ≡ some v
unfolding get_submission set find
get_submission-set v [] = rw ((eq_iff v.id v.id).1 refl) refl
get_submission-set v (w ∷ s) =
    let rest = get_submission-set v s in
    elim (Bool-cases (w.id == v.id)) [
      | inl t ↦ rw (t, (eq_iff v.id v.id).1 refl) refl
      | inr f ↦ rw (f, f) rest
    ]

pub get_submission-other :
    (id : String) (v : WorkEvidenceSubmission) (s : Submissions)
    → v.id ≢ id
    → get_submission id (set v s) ≡ get_submission id s
unfolding get_submission set find
get_submission-other id v [] h = rw (not_same v.id id h) refl
get_submission-other id v (w ∷ s) h =
    let rest = get_submission-other id v s h in
    elim (Bool-cases (w.id == v.id)) [
      | inl t ↦
          let same : w.id ≡ v.id = (eq_iff w.id v.id).0 t in
          rw (t, not_same v.id id h, subst (λ i. (i == id) ≡ false) (sym same) (not_same v.id id h))
            refl
      | inr f ↦ rw (f, rest) refl
    ]

pub get_submission-id :
    (id : String) (s : Submissions) (v : WorkEvidenceSubmission)
    → get_submission id s ≡ some v
    → v.id ≡ id
unfolding get_submission
get_submission-id id s v h = (eq_iff v.id id).0 (find-eq-some (λ w. w.id == id) s h).1

-- The store has this submission under its id.
abbrev pub Holds : String → WorkEvidenceSubmission → Submissions → Type 0
Holds id v s = get_submission id s ≡ some v

module _ (id : String) (v : WorkEvidenceSubmission) where
  create_submission-Holds :
      (w : WorkEvidenceSubmission) (s : Submissions)
      → Holds id v s
      → Holds id v (create_submission w s).1
  unfolding create_submission
  create_submission-Holds w s h = elim (Option-cases (get_submission w.id s)) [
    | inl fresh ↦
        let other : w.id ≢ id =
          λ e. ground (arith, subst (λ i. get_submission i s ≡ none) e fresh) in
        rw fresh (get_submission-other id w s other ∙ h)
    | inr (x, taken) ↦ rw taken h
  ]

  review_found-Holds :
      (r : WorkEvidenceReview) (now : ℕ) (s : Submissions) (o : Option WorkEvidenceSubmission)
      → ((w : WorkEvidenceSubmission) → o ≡ some w → w.id ≢ id)
      → Holds id v s
      → Holds id v (review_found r now s o).1
  unfolding apply_review
  review_found-Holds r now s none other h = h
  review_found-Holds r now s (some w) other h =
      get_submission-other id (apply_review w r now) s (other w refl) ∙ h

  module _ (e : Ethers) (uuid : String → Bool) where
    submit-Holds :
        (stored : Option AgreementMetadata) (new agreement_id wallet : String)
        (input : WorkEvidenceSubmissionInput) (now : ℕ) (s : Submissions)
        → Holds id v s
        → Holds id v (submit e uuid stored new agreement_id wallet input now s).1
    unfolding submit
    submit-Holds stored new agreement_id wallet input now s h =
        lift-state (Holds id v) _ _ s h (λ m. lift-state (Holds id v) _ _ s h (λ _.
          lift-state (Holds id v) _ _ s h (λ submitter. lift-state (Holds id v) _ _ s h (λ seller.
            require-state (Holds id v) _ _ _ s h (λ _.
              lift-state (Holds id v) _ _ s h (λ _.
                require-state (Holds id v) _ _ _ s h (λ _. create_submission-Holds _ s h)))))))

    record_review-Holds :
        (submission_id : String) (w : WorkEvidenceSubmission) (r : WorkEvidenceReview) (now : ℕ)
        (s : Submissions)
        → get_submission submission_id s ≡ some w
        → is_submitted w.status ≡ true
        → is_submitted v.status ≡ false
        → Holds id v s
        → Holds id v (record_review e uuid submission_id r now s).1
    unfolding record_review review_submission
    record_review-Holds submission_id w r now s found open_yet decided h =
        review_found-Holds r now s (get_submission submission_id s)
          (λ x got e.
            let same_id = sym (get_submission-id submission_id s x got) ∙ e in
            let same : x ≡ v =
              some-injective (sym got ∙ subst (λ i. get_submission i s ≡ some v) (sym same_id) h) in
            let reread : w ≡ v = some-injective (sym found ∙ got) ∙ same in
            let undecided : is_submitted v.status ≡ true =
              subst (λ y. is_submitted y.status ≡ true) reread open_yet in
            cc)
          h

    pub read_submission-eqs :
        (submission_id : String) (s t : Submissions) (w : WorkEvidenceSubmission)
        → read_submission e uuid submission_id s ≡ (next w, t)
        → (get_submission submission_id s ≡ some w) × (s ≡ t)
    unfolding read_submission
    read_submission-eqs submission_id s t w h =
        (or_fail-next (get_submission submission_id s) _ (ap (λ x. x.0) h), ap (λ x. x.1) h)

    read_submission-state :
        (submission_id : String) (s : Submissions) → (read_submission e uuid submission_id s).1 ≡ s
    unfolding read_submission
    read_submission-state submission_id s = refl

    review-Holds :
        (stored : Option AgreementMetadata) (agreement_id submission_id wallet : String)
        (input : WorkEvidenceReview) (now : ℕ) (s : Submissions)
        → is_submitted v.status ≡ false
        → Holds id v s
        → Holds id v (review e uuid stored agreement_id submission_id wallet input now s).1
    unfolding review
    review-Holds stored agreement_id submission_id wallet input now s decided h =
        lift-state (Holds id v) _ _ s h (λ m. lift-state (Holds id v) _ _ s h (λ _.
          lift-state (Holds id v) _ _ s h (λ role. require-state (Holds id v) _ _ _ s h (λ _.
            step-state (Holds id v) _ _ s (rw (read_submission-state submission_id s) h) (λ w t got.
              let (found, same) = read_submission-eqs submission_id s t w got in
              let k = subst (Holds id v) same h in
              require-state (Holds id v) _ _ _ t k (λ _.
                require-state (Holds id v) _ _ _ t k (λ open_yet.
                  lift-state (Holds id v) _ _ t k (λ _.
                    record_review-Holds submission_id w input now t
                      (subst (λ u. get_submission submission_id u ≡ some w) same found) open_yet
                      decided k))))))))

    pub data Call : Type 0 where
      submits :
          Option AgreementMetadata
          → String
          → String
          → String
          → WorkEvidenceSubmissionInput
          → ℕ
          → Call
      reviews : Option AgreementMetadata → String → String → String → WorkEvidenceReview → ℕ → Call

    abbrev pub served : Call → Submissions → Submissions
    served (submits stored new agreement_id wallet input now) s =
        (submit e uuid stored new agreement_id wallet input now s).1
    served (reviews stored agreement_id submission_id wallet input now) s =
        (review e uuid stored agreement_id submission_id wallet input now s).1

    pub after_calls : List Call → Submissions → Submissions
    after_calls [] s = s
    after_calls (c ∷ cs) s = after_calls cs (served c s)

    served-Holds :
        (c : Call) (s : Submissions)
        → is_submitted v.status ≡ false
        → Holds id v s
        → Holds id v (served c s)
    served-Holds (submits stored new agreement_id wallet input now) s decided h =
        submit-Holds stored new agreement_id wallet input now s h
    served-Holds (reviews stored agreement_id submission_id wallet input now) s decided h =
        review-Holds stored agreement_id submission_id wallet input now s decided h

    -- A submission that has been accepted or rejected stays in the store as it is, whatever is
    -- submitted and reviewed after it, by anyone and for any agreements.
    pub after_calls-Holds :
        (cs : List Call) (s : Submissions)
        → is_submitted v.status ≡ false
        → Holds id v s
        → Holds id v (after_calls cs s)
    unfolding after_calls
    after_calls-Holds [] s decided h = h
    after_calls-Holds (c ∷ cs) s decided h =
        after_calls-Holds cs (served c s) decided (served-Holds c s decided h)
