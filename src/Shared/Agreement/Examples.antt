-- ===== src/Shared/Agreement/Examples.antt =====
-- Drafts that pass and fail their validation.
use veyronis.Prelude.{all, String, ◌≡◌, refl, Bool, true, none}
use veyronis.Prelude.Flow.{next}
use veyronis.Prelude.Text.{to_lower_case, big_int}
use veyronis.Samples.{sample_ethers, payer, payee, judge, vault, sample_hash, native_policy}
use veyronis.Shared.Policy.{
  policy_shape, policy_terms, address_schema, bytes32_schema, uint_string_schema,
  evidence_policy_schema, external_blockchain_condition_from_policy,
}
use veyronis.Shared.Agreement.{
  AgreementDraft, blockchain_condition_only, has_application_evidence_requirements,
}
use veyronis.Shared.Agreement.Draft.{
  agreement_draft_schema, has_zero_address, shares_participant, mode_terms,
  validate_agreement_draft,
}
use veyronis.Shared.Agreement.Draft.Validated.{IsValidated, validate-IsValidated}

abbrev any_uuid : String → Bool
any_uuid s = true

abbrev sample_draft : AgreementDraft
sample_draft = record {
  buyer = payer;
  seller = payee;
  arbitrator = judge;
  required_amount = "1000";
  agreement_nonce = sample_hash;
  evidence_registry = vault;
  policy = native_policy;
  agreement_mode = blockchain_condition_only;
  deliverables = none;
}

sample_draft_valid :
    validate_agreement_draft any_uuid sample_ethers sample_draft ≡ next sample_draft
unfolding validate_agreement_draft agreement_draft_schema address_schema bytes32_schema
    uint_string_schema evidence_policy_schema policy_shape policy_terms has_zero_address
    shares_participant mode_terms external_blockchain_condition_from_policy
    has_application_evidence_requirements to_lower_case big_int all
sample_draft_valid = refl

validate-IsValidated_example :
    (sample_draft ≡ sample_draft) × IsValidated any_uuid sample_ethers sample_draft
validate-IsValidated_example =
    validate-IsValidated any_uuid sample_ethers sample_draft sample_draft sample_draft_valid
