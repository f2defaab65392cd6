-- ===== src/Condition/Service/Examples.antt =====
-- A seller's attempt that the verifier accepts.
use veyronis.Prelude.{find, String, ◌≡◌, ◌⊎◌, refl, true, none, some, [], ◌∷◌}
use veyronis.Prelude.Flow.{next}
use veyronis.Prelude.Flow.Run.{◌>>=◌}
use veyronis.Prelude.Text.{to_lower_case}
use veyronis.Samples.{
  sample_ethers, payer, payee, judge, vault, sample_hash, native_policy, address_of,
}
use veyronis.Shared.Policy.{bytes32_schema, external_blockchain_condition_from_policy}
use veyronis.Shared.Agreement.{
  AgreementMetadata, DeploymentStatus, blockchain_condition_only, agreement_lifecycle_mode,
}
use veyronis.Shared.Chain.{verified}
use veyronis.Attestcoin.{AttestcoinProofRequest, Verification, VerifiedConditionFacts}
use veyronis.Attestcoin.Commitment.{compute_evidence_commitment}
use veyronis.Condition.{AgreementConditionVerification}
use veyronis.Condition.Repository.{
  Store, start_verification, start_found, find_verification, find_verified_transaction, set, get,
  update_verification, update_found, apply_update,
}
use veyronis.Condition.Admission.{
  admit, require_agreement, require_seller, require_condition, parse_hash, require_unverified,
  role_for, proof_request,
}
use veyronis.Condition.Admission.Admitted.{IsAdmitted}
use veyronis.Condition.Service.{
  ConditionServices, Attempt, verify, start_and_run, after_start, run_verifier, after_verifier,
}
use veyronis.Condition.Service.Verified.{
  in_memory, in_memory-lawful, IsBacked, Found, verify-IsBacked,
}

abbrev agreement : AgreementMetadata
agreement = record {
  terms = record {
    buyer = payer;
    seller = payee;
    arbitrator = judge;
    required_amount = "1000";
    agreement_nonce = sample_hash;
    evidence_registry = vault;
    policy = native_policy;
    agreement_mode = blockchain_condition_only;
    deliverables = none;
  };
  id = "a";
  escrow_address = some vault;
  agreement_commitment = "0xAA";
  evidence_policy_commitment = "0xBB";
  deployment_transaction_hash = none;
  deployment_block_number = none;
  deployment_status = DeploymentStatus.deployed;
  deployment_error = none;
  created_at = 1;
  updated_at = 1;
}

abbrev facts : VerifiedConditionFacts
facts = record {
  source_chain_key = 1;
  source_transaction_hash = sample_hash;
  source_block_number = 12;
  chain_id = "11155111";
  sender = payer;
  recipient = payee;
  asset = "0x0000000000000000000000000000000000000000";
  amount = "300";
  transaction_included = true;
  transaction_succeeded = true;
  condition_match = true;
}

abbrev accepted_by : AttestcoinProofRequest → Verification
accepted_by request = record {
  claim = record {
    escrow = request.escrow_address;
    agreement_commitment = request.agreement_commitment;
    evidence_policy_commitment = request.evidence_policy_commitment;
    evidence_commitment = request.evidence_commitment;
    evidence_type = request.evidence_type;
    source_chain_key = request.source_chain_key;
    source_transaction_hash = request.transaction_hash;
    subject = request.subject;
  };
  claim_id = "0xclaim";
  transaction_hash = "0xsubmitted";
  verified_amount = "300";
  verified_facts = facts;
}

abbrev services : ConditionServices Store
services = in_memory (λ id s. some agreement) (λ request s. (next (accepted_by request), s))

abbrev attempt : Attempt
attempt = record { id = "v1"; now = 1000; verified_at = 2000 }

abbrev result : AgreementConditionVerification
result = record {
  id = "v1";
  agreement_id = "a";
  submitter = payee;
  transaction_hash = "0xabababababababababababababababababababababababababababababababab";
  status = verified;
  verified_claim_id = some "0xclaim";
  verified_amount = some "300";
  verified_facts = some facts;
  failure_code = none;
  failure_message = none;
  submitted_at = 1000;
  verified_at = some 2000;
  updated_at = 2000;
}

verifies :
    verify sample_ethers services "a" payee sample_hash attempt [] ≡ (next result, result ∷ [])
unfolding verify start_and_run after_start run_verifier after_verifier admit require_agreement
    require_seller require_condition parse_hash require_unverified role_for proof_request
    start_verification start_found find_verification find_verified_transaction set get
    update_verification update_found apply_update external_blockchain_condition_from_policy
    agreement_lifecycle_mode compute_evidence_commitment bytes32_schema to_lower_case address_of
    find ◌>>=◌
verifies = refl

verify-IsBacked_example :
    (m : AgreementMetadata) × (hash : String) × IsAdmitted sample_ethers "a"
      (some agreement)
      (λ h. find_verified_transaction h [])
      payee
      sample_hash
      m
      hash
    × (Found sample_ethers services "a" [] result ⊎ IsBacked sample_ethers services m hash result)
verify-IsBacked_example =
    verify-IsBacked sample_ethers services
      (in_memory-lawful (λ id s. some agreement) (λ request s. (next (accepted_by request), s))) "a"
      payee sample_hash attempt [] (result ∷ []) result verifies refl
