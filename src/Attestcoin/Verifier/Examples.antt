-- ===== src/Attestcoin/Verifier/Examples.antt =====
-- Runs of the verifier on small inputs.
use veyronis.Prelude.{◌≡◌, refl, true, false, none, some, [], ◌∷◌, All}
use veyronis.Prelude.Flow.{Flow, next}
use veyronis.Prelude.Flow.Run.{◌>>=◌}
use veyronis.Prelude.Text.{to_lower_case}
use veyronis.Shared.Policy.{policy_shape, policy_terms, evidence_policy_schema}
use veyronis.Samples.{sample_ethers, payer, payee, vault, sample_hash, native_policy, address_of}
use veyronis.Attestcoin.{
  Failure, AttestcoinProofRequest, VerifiedSourceTransaction, VerifiedEvidenceClaim, Verification,
  direct_settlement, same_address,
}
use veyronis.Attestcoin.Commitment.{
  same_hex, hash, compute_evidence_policy_commitment, compute_evidence_commitment, compute_claim_id,
  compute_source_evidence_key,
}
use veyronis.Attestcoin.Evaluator.{
  evaluate, evaluate_asset, evaluate_native, check_amount, amount_satisfies,
}
use veyronis.Attestcoin.Verifier.Interfaces.{
  Services, Trace, perform, settlement_context, submit, dispute_context, evidence_escrow,
  claim_consumed, prove,
}
use veyronis.Attestcoin.Verifier.Checks.{
  check_request, check_transaction, check_interpretation, make_claim, check_escrow, check_mode,
  make_facts,
}
use veyronis.Attestcoin.Verifier.Safety.{IsPermitted}
use veyronis.Attestcoin.Verifier.Submissions.{verify_and_submit-calls}
use veyronis.Attestcoin.Verifier.Confirmed.{Confirmed, verify_and_submit-Confirmed}
use veyronis.Attestcoin.Verifier.{
  check_replay, submission_of, submit_claim, is_settled, confirm, settle, caught, authorize,
  submit_evidence, verify_and_submit,
}

abbrev paid : VerifiedSourceTransaction
paid = record {
  source_chain_key = 1;
  source_transaction_hash = sample_hash;
  source_block_number = 12;
  transaction_index = 0;
  from = payer;
  to = some payee;
  chain_id = "11155111";
  value = "250";
  calldata = "0x";
  receipt_status = 1;
  logs = [];
}

abbrev pub request : AttestcoinProofRequest
request = record {
  escrow_address = vault;
  source_chain_key = 1;
  transaction_hash = sample_hash;
  agreement_commitment = "0xagreement";
  evidence_policy_commitment = "0xhash";
  evidence_commitment = "0xhash";
  evidence_type = sample_hash;
  subject = payer;
  policy = native_policy;
  condition_submission = some direct_settlement;
}

abbrev pub services : Services
services = record {
  verify = λ t r. next paid;
  evaluate = evaluate sample_ethers;
  is_claim_consumed = λ t id. some false;
  source_evidence_escrow = λ t key. some "0x0000000000000000000000000000000000000000";
  submit_verified_claim = λ t c. none;
  submit_verified_condition_claim =
      λ t c. some (record { claim_id = "0xclaim"; transaction_hash = "0xsubmitted" });
  submit_verified_prerequisite_claim = λ t c. none;
  read_dispute_context = λ t a. some (record {
    escrow_address = vault;
    agreement_commitment = "0xagreement";
    evidence_policy_commitment = "0xhash";
    active_evidence_commitment = "0x00";
    direct_condition_settlement = true;
    buyer = payee;
    seller = payer;
    state = 1;
  });
  read_settlement_context = λ t a. some (record {
    state = 4;
    verified_claim_id = "0xCLAIM";
    active_evidence_commitment = "0xhash";
    seller_withdrawal = 250;
  });
  read_verified_claim_id = λ t a. none;
}

abbrev pub claim : VerifiedEvidenceClaim
claim = record {
  escrow = vault;
  agreement_commitment = "0xagreement";
  evidence_policy_commitment = "0xhash";
  evidence_commitment = "0xhash";
  evidence_type = sample_hash;
  source_chain_key = 1;
  source_transaction_hash = sample_hash;
  subject = payer;
}

abbrev verified : Verification
verified = record {
  claim = claim;
  claim_id = "0xclaim";
  transaction_hash = "0xsubmitted";
  verified_amount = "250";
  verified_facts = record {
    source_chain_key = 1;
    source_transaction_hash = sample_hash;
    source_block_number = 12;
    chain_id = "11155111";
    sender = payer;
    recipient = payee;
    asset = "Native asset";
    amount = "250";
    transaction_included = true;
    transaction_succeeded = true;
    condition_match = true;
  };
}

abbrev pub calls : Trace
calls =
    settlement_context vault
    ∷ submit direct_settlement claim
    ∷ dispute_context vault
    ∷ evidence_escrow "0xhash"
    ∷ claim_consumed "0xhash"
    ∷ prove request
    ∷ []

accepted :
    ◌≡◌ {A = Flow Failure Verification × Trace}
      (verify_and_submit sample_ethers services request [])
      (next verified, calls)
unfolding verify_and_submit submit_evidence authorize settle caught confirm submit_claim
    submission_of check_replay is_settled check_request check_transaction check_interpretation
    make_claim check_escrow check_mode make_facts evaluate evaluate_asset evaluate_native
    check_amount amount_satisfies evidence_policy_schema policy_shape policy_terms same_address
    same_hex hash compute_evidence_policy_commitment compute_evidence_commitment compute_claim_id
    compute_source_evidence_key address_of to_lower_case perform ◌>>=◌
accepted = refl

verify_and_submit-calls_example :
    All
      (IsPermitted sample_ethers services request)
      (verify_and_submit sample_ethers services request []).1
verify_and_submit-calls_example = verify_and_submit-calls sample_ethers services request [] tt

verify_and_submit-Confirmed_example : Confirmed sample_ethers services request verified calls
verify_and_submit-Confirmed_example =
    verify_and_submit-Confirmed sample_ethers services request [] calls verified accepted
