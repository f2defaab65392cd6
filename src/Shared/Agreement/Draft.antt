-- ===== src/Shared/Agreement/Draft.antt =====
-- `validateAgreementDraft` and the schemas that it applies, of packages/shared/src/index.ts. A
-- thrown `Error` is a failure that carries its message.
pub mod Validated
use veyronis.Prelude.{
  ℕ, String, Bool, true, false, not, ◌&&◌, ◌||◌, Option, none, some, List, [], ◌∷◌, ltb, leb,
  ◌==◌ as nat_eq, if◌then◌else◌, is_some, get_or, any, all, length,
}
use veyronis.Prelude.Flow.{Flow, next, require, ◌>>=◌, ◌>>◌}
use veyronis.Prelude.Text.{text_length, to_lower_case, big_int}
use veyronis.Ethers.{Ethers}
use veyronis.Shared.Policy.{
  address_schema, bytes32_schema, uint_string_schema, evidence_policy_schema, zero_address,
  external_blockchain_condition_from_policy,
}
use veyronis.Shared.Agreement.{
  AgreementEvidenceRequirement, AgreementDeliverable, AgreementDraft, AgreementLifecycleMode,
  blockchain_condition_only, application_work_evidence, hybrid,
  has_application_evidence_requirements,
}
use text.Mathlib.Text.{◌==◌}

unfoldable pub has_zero_address : AgreementDraft → Bool
unfolding any to_lower_case
has_zero_address d =
    any (λ a. to_lower_case a == zero_address)
      (d.buyer ∷ d.seller ∷ d.arbitrator ∷ d.evidence_registry ∷ [])

abbrev pub zero_nonce : String
zero_nonce = "0x0000000000000000000000000000000000000000000000000000000000000000"

abbrev pub same_lower : String → String → Bool
same_lower a b = to_lower_case a == to_lower_case b

unfoldable pub shares_participant : AgreementDraft → Bool
unfolding to_lower_case
shares_participant d =
    same_lower d.buyer d.seller
    || same_lower d.buyer d.arbitrator
    || same_lower d.seller d.arbitrator

-- The branches on the agreement's mode.
unfoldable pub mode_terms :
    AgreementLifecycleMode → Bool → Bool → List AgreementDeliverable → Flow String (Unit {0})
mode_terms blockchain_condition_only condition work deliverables = do
  require condition "Blockchain-only agreements require an external blockchain condition"
  require (not (ltb 0 (length deliverables)))
      "Blockchain-only agreements cannot include work deliverables"
mode_terms application_work_evidence condition work deliverables = do
  require (not condition) "Work-only agreements cannot include an external blockchain condition"
  require work "Work-only agreements require application work evidence"
mode_terms hybrid condition work deliverables =
    require (not (not condition || not work))
      "Hybrid agreements require both verification components"

module _ (uuid : String → Bool) where
  evidence_requirement_schema : AgreementEvidenceRequirement → Bool
  evidence_requirement_schema r =
      uuid r.id
      && leb 1 (text_length r.label)
      && leb (text_length r.label) 160
      && leb r.position 999

  agreement_deliverable_schema : AgreementDeliverable → Bool
  unfolding evidence_requirement_schema
  agreement_deliverable_schema d =
      uuid d.id
      && leb 1 (text_length d.title)
      && leb (text_length d.title) 160
      && leb (text_length d.description) 2000
      && leb d.position 999
      && leb (length d.evidence_requirements) 20
      && all evidence_requirement_schema d.evidence_requirements

  -- `agreementDraftSchema.safeParse(input).success`.
  unfoldable pub agreement_draft_schema : AgreementDraft → Bool
  unfolding agreement_deliverable_schema address_schema uint_string_schema bytes32_schema
  agreement_draft_schema d =
      address_schema d.buyer
      && address_schema d.seller
      && address_schema d.arbitrator
      && uint_string_schema 256 d.required_amount
      && bytes32_schema d.agreement_nonce
      && address_schema d.evidence_registry
      && evidence_policy_schema d.policy
      && leb (length (get_or d.deliverables [])) 50
      && all agreement_deliverable_schema (get_or d.deliverables [])

  unfoldable pub validate_agreement_draft : Ethers → AgreementDraft → Flow String AgreementDraft
  validate_agreement_draft e d = do
    require (agreement_draft_schema d) "Invalid agreement draft"
    require (not (has_zero_address d)) "Agreement addresses must be nonzero"
    require (not (to_lower_case d.agreement_nonce == zero_nonce)) "Agreement nonce must be nonzero"
    require (not (shares_participant d)) "Agreement participants must be distinct"
    require (not (nat_eq (big_int d.required_amount) 0)) "Required amount must be positive"
    mode_terms d.agreement_mode (is_some (external_blockchain_condition_from_policy e d.policy))
        (has_application_evidence_requirements d.deliverables) (get_or d.deliverables [])
    next d
