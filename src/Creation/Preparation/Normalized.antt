-- ===== src/Creation/Preparation/Normalized.antt =====
-- What `prepare` of backend/src/agreements/agreement-service.ts changes in a draft that it has
-- validated.
use veyronis.Prelude.{String, ◌≡◌, ◌≢◌, sym, ap, ◌∙◌, Bool, true, false, arith, is_some}
use veyronis.Prelude.Flow.{next, bind-eq-next, or_throw-eq-next, next-injective}
use veyronis.Prelude.Text.{to_lower_case}
use veyronis.Ethers.{Ethers}
use veyronis.Shared.Policy.{
  EvidencePolicy, disabled_evidence_type, external_blockchain_condition_from_policy,
}
use veyronis.Shared.Agreement.{AgreementDraft}
use veyronis.Shared.Agreement.Draft.{validate_agreement_draft}
use veyronis.Shared.Agreement.Draft.Validated.{validate-IsValidated}
use veyronis.Creation.Preparation.{normalize_policy, normalize_draft, accepted_draft}
use text.Mathlib.TextEquality.{eq_iff}

condition-none :
    (e : Ethers) (p : EvidencePolicy)
    → p.evidence_type ≡ disabled_evidence_type e
    → is_some (external_blockchain_condition_from_policy e p) ≡ false
unfolding external_blockchain_condition_from_policy
condition-none e p same = ground (arith, eq_iff p.evidence_type (disabled_evidence_type e))

condition-some :
    (e : Ethers) (p : EvidencePolicy)
    → p.evidence_type ≢ disabled_evidence_type e
    → is_some (external_blockchain_condition_from_policy e p) ≡ true
unfolding external_blockchain_condition_from_policy
condition-some e p other = ground (arith, eq_iff p.evidence_type (disabled_evidence_type e))

normalize_policy-type :
    (e : Ethers) (p p' : EvidencePolicy)
    → normalize_policy e p ≡ next p'
    → p'.evidence_type ≡ to_lower_case p.evidence_type
unfolding normalize_policy
normalize_policy-type e p p' h =
    let (contract, k1, h1) = or_throw-eq-next (e.get_address p.expected_source_contract) _ h in
    let (recipient, k2, h2) = or_throw-eq-next (e.get_address p.expected_recipient) _ h1 in
    let (asset, k3, h3) = or_throw-eq-next (e.get_address p.expected_asset) _ h2 in
    let (sender, k4, h4) = or_throw-eq-next (e.get_address p.expected_sender) _ h3 in
    ap (λ q. q.evidence_type) (sym (next-injective h4))

normalize_draft-fields :
    (e : Ethers) (d d' : AgreementDraft)
    → normalize_draft e d ≡ next d'
    → (d'.policy.evidence_type ≡ to_lower_case d.policy.evidence_type)
      × (d'.agreement_mode ≡ d.agreement_mode)
      × (d'.deliverables ≡ d.deliverables)
unfolding normalize_draft
normalize_draft-fields e d d' h =
    let (b, k1, h1) = or_throw-eq-next (e.get_address d.buyer) _ h in
    let (s, k2, h2) = or_throw-eq-next (e.get_address d.seller) _ h1 in
    let (a, k3, h3) = or_throw-eq-next (e.get_address d.arbitrator) _ h2 in
    let (r, k4, h4) = or_throw-eq-next (e.get_address d.evidence_registry) _ h3 in
    let (p, k5, h5) = bind-eq-next (normalize_policy e d.policy) _ h4 in
    let same = next-injective h5 in
    (
      ap (λ q. q.policy.evidence_type) (sym same) ∙ normalize_policy-type e d.policy p k5,
      ap (λ q. q.agreement_mode) (sym same),
      ap (λ q. q.deliverables) (sym same),
    )

-- A draft that is accepted with an evidence type that is the lower-case type of disabled
-- verification but for the case of its letters is stored with no external condition, although
-- it was validated as having one; so in the blockchain-only mode it is stored with neither a
-- condition nor deliverables.
pub accepted_draft-disabled :
    (e : Ethers) (uuid : String → Bool) (d d' : AgreementDraft)
    → accepted_draft e uuid d ≡ next d'
    → d.policy.evidence_type ≢ disabled_evidence_type e
    → to_lower_case d.policy.evidence_type ≡ disabled_evidence_type e
    → (is_some (external_blockchain_condition_from_policy e d.policy) ≡ true)
      × (is_some (external_blockchain_condition_from_policy e d'.policy) ≡ false)
      × (d'.agreement_mode ≡ d.agreement_mode)
      × (d'.deliverables ≡ d.deliverables)
unfolding accepted_draft
accepted_draft-disabled e uuid d d' h other lower =
    let (v, validated, h1) = bind-eq-next (validate_agreement_draft uuid e d) _ h in
    let (same, valid) = validate-IsValidated uuid e d v validated in
    let (is_type, mode, deliverables) = normalize_draft-fields e v d' h1 in
    (
      condition-some e d.policy other,
      condition-none e d'.policy
          (is_type ∙ ap (λ x. to_lower_case x.policy.evidence_type) (sym same) ∙ lower),
      mode ∙ ap (λ x. x.agreement_mode) (sym same),
      deliverables ∙ ap (λ x. x.deliverables) (sym same),
    )
