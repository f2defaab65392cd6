-- ===== src/Creation/Examples.antt =====
-- An agreement of a small draft, deployed once, and a draft with the disabled evidence type in
-- another case.
use veyronis.Prelude.{
  String, arith, ◌≡◌, refl, true, false, Option, none, some, [], ◌∷◌, is_some, all, find,
}
use veyronis.Prelude.Flow.{next, failed}
use veyronis.Prelude.Text.{to_lower_case, big_int}
use veyronis.Ethers.{Ethers}
use veyronis.Samples.{
  sample_ethers, payer, payee, judge, vault, sample_hash, native_policy, address_of,
}
use veyronis.Shared.Policy.{
  policy_shape, policy_terms, address_schema, bytes32_schema, uint_string_schema,
  evidence_policy_schema, external_blockchain_condition_from_policy, disabled_evidence_type,
}
use veyronis.Shared.Agreement.{
  AgreementDraft, AgreementMetadata, DeploymentStatus, blockchain_condition_only,
  has_application_evidence_requirements,
}
use veyronis.Shared.Agreement.Draft.{
  agreement_draft_schema, has_zero_address, shares_participant, mode_terms,
  validate_agreement_draft,
}
use text.Mathlib.TextEquality.{eq_iff}
use veyronis.Creation.{create_agreement, put, Agreements, get_agreement_by_id}
use veyronis.Creation.Preparation.{
  prepared_agreement, accepted_draft, normalize_draft, normalize_policy,
}
use veyronis.Creation.Preparation.Normalized.{accepted_draft-disabled}
use veyronis.Prelude.Flow.Run.{◌>>=◌}
use veyronis.Attestcoin.Commitment.{compute_evidence_policy_commitment}
use veyronis.Creation.Service.Prepared.{prepare-once}
use veyronis.Creation.Service.{prepare, Deployment, confirm_and_deploy}
use veyronis.Creation.Service.Deployed.{
  IsAnswered, confirm_and_deploy-outcome, confirm_and_deploy-once,
}

abbrev plain_draft : AgreementDraft
plain_draft = record {
  buyer = payer;
  seller = payee;
  arbitrator = judge;
  required_amount = "1000";
  agreement_nonce = sample_hash;
  evidence_registry = vault;
  policy = native_policy;
  agreement_mode = blockchain_condition_only;
  deliverables = none;
}

abbrev waiting : AgreementMetadata
waiting = record {
  terms = plain_draft;
  id = "a";
  escrow_address = none;
  agreement_commitment = sample_hash;
  evidence_policy_commitment = sample_hash;
  deployment_transaction_hash = none;
  deployment_block_number = none;
  deployment_status = DeploymentStatus.awaiting_confirmation;
  deployment_error = none;
  created_at = 1;
  updated_at = 1;
}

abbrev stored_agreements : Agreements
stored_agreements = record waiting { id = "b" } ∷ waiting ∷ []

abbrev deployer : AgreementMetadata → Option Deployment
deployer a =
    some
      (record { escrow_address = vault; transaction_hash = sample_hash; block_number = some "9" })

waiting_stored : get_agreement_by_id "a" stored_agreements ≡ some waiting
unfolding get_agreement_by_id find
waiting_stored = refl

confirm_and_deploy-outcome_example :
    (b : AgreementMetadata) × (s' : Agreements) × (confirm_and_deploy deployer "a" 5
        stored_agreements
      ≡ (next b, s'))
    × (get_agreement_by_id "a" s' ≡ some b)
    × IsAnswered waiting 5 (deployer waiting) b
confirm_and_deploy-outcome_example =
    confirm_and_deploy-outcome deployer "a" 5 stored_agreements waiting waiting_stored refl

confirm_and_deploy-once_example :
    confirm_and_deploy deployer "a" 6 (confirm_and_deploy deployer "a" 5 stored_agreements).1 ≡ (
      failed "Agreement is not awaiting confirmation",
      (confirm_and_deploy deployer "a" 5 stored_agreements).1,
    )
confirm_and_deploy-once_example =
    confirm_and_deploy-once deployer "a" 5 6 stored_agreements waiting waiting_stored refl

-- An ethers package whose hash of every text is one lower-case hash.
abbrev hashing_ethers : Ethers
hashing_ethers = record sample_ethers {
  id = λ s. "0xabababababababababababababababababababababababababababababababab";
}

-- The draft as it is stored.
abbrev stored_draft : AgreementDraft
stored_draft = record plain_draft {
  policy = record native_policy {
    evidence_type = "0xabababababababababababababababababababababababababababababababab";
  };
}

accepts_draft : accepted_draft hashing_ethers (λ s. true) plain_draft ≡ next stored_draft
unfolding accepted_draft normalize_draft normalize_policy validate_agreement_draft
    agreement_draft_schema address_schema bytes32_schema uint_string_schema evidence_policy_schema
    policy_shape policy_terms has_zero_address shares_participant mode_terms
    external_blockchain_condition_from_policy has_application_evidence_requirements to_lower_case
    big_int all address_of
accepts_draft = refl

lowered :
    to_lower_case sample_hash ≡ "0xabababababababababababababababababababababababababababababababab"
unfolding to_lower_case
lowered = refl

accepted_draft-disabled_example :
    (is_some (external_blockchain_condition_from_policy hashing_ethers native_policy) ≡ true)
    × (is_some (external_blockchain_condition_from_policy hashing_ethers stored_draft.policy)
        ≡ false)
    × (blockchain_condition_only ≡ blockchain_condition_only)
    × (◌≡◌ {A = Option _} none plain_draft.deliverables)
accepted_draft-disabled_example =
    accepted_draft-disabled hashing_ethers (λ s. true) plain_draft stored_draft accepts_draft
      (λ h. ground (arith, (eq_iff sample_hash (disabled_evidence_type hashing_ethers)).1 h))
      lowered

abbrev prepared : AgreementMetadata
prepared = record {
  terms = stored_draft;
  id = "veyronis:0xcommit";
  escrow_address = none;
  agreement_commitment = "0xcommit";
  evidence_policy_commitment = "0xhash";
  deployment_transaction_hash = none;
  deployment_block_number = none;
  deployment_status = DeploymentStatus.awaiting_confirmation;
  deployment_error = none;
  created_at = 1;
  updated_at = 1;
}

abbrev commitment_of : AgreementDraft → String → Option String
commitment_of d policy = some "0xcommit"

prepares :
    prepare hashing_ethers (λ s. true) commitment_of 1 plain_draft []
    ≡ (next prepared, prepared ∷ [])
unfolding prepare prepared_agreement create_agreement put compute_evidence_policy_commitment
    get_agreement_by_id find accepted_draft normalize_draft normalize_policy
    validate_agreement_draft agreement_draft_schema address_schema bytes32_schema uint_string_schema
    evidence_policy_schema policy_shape policy_terms has_zero_address shares_participant mode_terms
    external_blockchain_condition_from_policy has_application_evidence_requirements to_lower_case
    big_int all address_of ◌>>=◌
prepares = refl

prepare-once_example :
    (get_agreement_by_id "veyronis:0xcommit" (prepared ∷ []) ≡ some prepared)
    × (true ≡ true)
    × (prepare hashing_ethers (λ s. true) commitment_of 2 plain_draft (prepared ∷ [])
        ≡ (failed "Agreement metadata already exists", prepared ∷ []))
prepare-once_example =
    prepare-once hashing_ethers (λ s. true) commitment_of 1 2 plain_draft [] (prepared ∷ [])
      prepared prepares
