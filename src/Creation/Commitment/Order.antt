-- ===== src/Creation/Commitment/Order.antt =====
-- The commitments of packages/shared/src/index.ts do not depend on the order in which a draft
-- lists its deliverables and their requirements.
use veyronis.Prelude.{
  ℕ, suc, String, ◌≡◌, refl, ap, ◌∙◌, Bool, true, false, some, List, [], ◌∷◌, length, if◌then◌else◌,
}
use native.Mathlib.Omega.{arith}
use veyronis.Prelude.Sort.{
  sort, insert, Reorder, done, keep, swap, follow, IsTotalOrder, sort-Reorder,
}
use veyronis.Ethers.{Ethers}
use veyronis.Shared.Agreement.{AgreementDeliverable, AgreementEvidenceRequirement, AgreementDraft}
use veyronis.Creation.Commitment.{
  Script, item, no_items, array, position_before, deliverable_entries, requirement_before,
  deliverable_before, items_of, deliverable_json, work_evidence_json,
  compute_work_evidence_commitment, compute_agreement_commitment,
}

-- A comparison by position and then by text is an order when that of texts is one.
module _ {A : Type 0} (position : A → ℕ) (name : A → String) (locale : String → String → Bool) where
  abbrev by_position : A → A → Bool
  by_position a b = position_before locale (position a) (name a) (position b) (name b)

  by_position-IsTotalOrder : IsTotalOrder locale → IsTotalOrder by_position
  by_position-IsTotalOrder order = record {
    total = λ a b. ground (arith, order.total (name a) (name b));
    transitive = λ a b c p q. ground (arith, order.transitive (name a) (name b) (name c));
  }

length-Reorder :
    {A : Type 0} {before : A → A → Bool} {xs ys : List A}
    → Reorder before xs ys
    → length xs ≡ length ys
length-Reorder done = refl
length-Reorder (keep x r) = ap suc (length-Reorder r)
length-Reorder (swap x y xs apart) = refl
length-Reorder (follow r s) = length-Reorder r ∙ length-Reorder s

module _ (js : Script) where
  -- Deliverables that are listed in another order, or whose requirements are. Only elements that
  -- the comparison by position and id tells apart change places.
  pub data Rearranged : List AgreementDeliverable → List AgreementDeliverable → Type 0 where
    moved :
        {ds ds' : List AgreementDeliverable}
        → Reorder (deliverable_before js) ds ds'
        → Rearranged ds ds'
    requirements_moved :
        (d : AgreementDeliverable) {rs : List AgreementEvidenceRequirement}
        (ds : List AgreementDeliverable)
        → Reorder (requirement_before js) d.evidence_requirements rs
        → Rearranged (d ∷ ds) (record d { evidence_requirements = rs } ∷ ds)
    and_then :
        {xs ys zs : List AgreementDeliverable}
        → Rearranged xs ys
        → Rearranged ys zs
        → Rearranged xs zs

  length-Rearranged :
      {ds ds' : List AgreementDeliverable} → Rearranged ds ds' → length ds ≡ length ds'
  length-Rearranged (moved r) = length-Reorder r
  length-Rearranged (requirements_moved d ds r) = refl
  length-Rearranged (and_then r s) = length-Rearranged r ∙ length-Rearranged s

  module _ (order : IsTotalOrder js.locale_before) where
    requirements-IsTotalOrder : IsTotalOrder (requirement_before js)
    requirements-IsTotalOrder =
        by_position-IsTotalOrder (λ r. r.position) (λ r. r.id) js.locale_before order

    deliverables-IsTotalOrder : IsTotalOrder (deliverable_before js)
    deliverables-IsTotalOrder =
        by_position-IsTotalOrder (λ d. d.position) (λ d. d.id) js.locale_before order

    items_of-if :
        (b : Bool) (xs xs' ys ys' : List AgreementDeliverable)
        → items_of (deliverable_json js) xs ≡ items_of (deliverable_json js) xs'
        → items_of (deliverable_json js) ys ≡ items_of (deliverable_json js) ys'
        → items_of (deliverable_json js) (if b then xs else ys)
          ≡ items_of (deliverable_json js) (if b then xs' else ys')
    items_of-if true _ _ _ _ p q = p
    items_of-if false _ _ _ _ p q = q

    deliverable_json-Reorder :
        (d : AgreementDeliverable) {rs : List AgreementEvidenceRequirement}
        → Reorder (requirement_before js) d.evidence_requirements rs
        → deliverable_json js d ≡ deliverable_json js (record d { evidence_requirements = rs })
    unfolding deliverable_json
    deliverable_json-Reorder d r =
        ap (deliverable_entries js d)
          (sort-Reorder (requirement_before js) requirements-IsTotalOrder r)

    items_of-insert :
        (d : AgreementDeliverable) {rs : List AgreementEvidenceRequirement}
        → Reorder (requirement_before js) d.evidence_requirements rs
        → (zs : List AgreementDeliverable)
        → items_of (deliverable_json js) (insert (deliverable_before js) d zs)
          ≡ items_of
              (deliverable_json js)
              (insert (deliverable_before js) (record d { evidence_requirements = rs }) zs)
    unfolding insert
    items_of-insert d r [] = ap (λ j. item j no_items) (deliverable_json-Reorder d r)
    items_of-insert d r (z ∷ zs) =
        items_of-if (deliverable_before js d z) _ _ _ _
          (ap (λ j. item j (items_of (deliverable_json js) (z ∷ zs)))
            (deliverable_json-Reorder d r))
          (ap (item (deliverable_json js z)) (items_of-insert d r zs))

    work_evidence_json-Rearranged :
        {ds ds' : List AgreementDeliverable}
        → Rearranged ds ds'
        → work_evidence_json js ds ≡ work_evidence_json js ds'
    unfolding work_evidence_json sort
    work_evidence_json-Rearranged (moved r) =
        ap (λ sorted. array (items_of (deliverable_json js) sorted))
          (sort-Reorder (deliverable_before js) deliverables-IsTotalOrder r)
    work_evidence_json-Rearranged (requirements_moved d ds r) =
        ap array (items_of-insert d r (sort (deliverable_before js) ds))
    work_evidence_json-Rearranged (and_then r s) =
        work_evidence_json-Rearranged r ∙ work_evidence_json-Rearranged s

    compute_work_evidence_commitment-Rearranged :
        (e : Ethers) {ds ds' : List AgreementDeliverable}
        → Rearranged ds ds'
        → compute_work_evidence_commitment e js ds ≡ compute_work_evidence_commitment e js ds'
    unfolding compute_work_evidence_commitment
    compute_work_evidence_commitment-Rearranged e r =
        rw (length-Rearranged r, work_evidence_json-Rearranged r) refl

    -- When the comparison of texts is an order, the commitment to an agreement is the same for
    -- drafts that list the deliverables, or the requirements of one, in different orders, as long as
    -- two deliverables or requirements that are listed the other way round differ in their position
    -- or have ids that the comparison tells apart.
    pub compute_agreement_commitment-Rearranged :
        (e : Ethers) (draft : AgreementDraft) (policy_commitment : String)
        {ds ds' : List AgreementDeliverable}
        → Rearranged ds ds'
        → compute_agreement_commitment e js
            (record draft { deliverables = some ds })
            policy_commitment
          ≡ compute_agreement_commitment e js
              (record draft { deliverables = some ds' })
              policy_commitment
    unfolding compute_agreement_commitment
    compute_agreement_commitment-Rearranged e draft policy_commitment r =
        rw (compute_work_evidence_commitment-Rearranged e r) refl
