-- ===== src/Attestcoin/Proof/Composed/Examples.antt =====
-- A run of the verifier over the proof service.
use veyronis.Prelude.{◌≡◌, refl, [], find}
use mathlib.Core.List.{Memᴰ}
use veyronis.Prelude.Flow.Run.{◌>>=◌}
use veyronis.Prelude.Text.{to_lower_case}
use veyronis.Prelude.Text.Decimal.{decimal}
use veyronis.Shared.Policy.{policy_shape, policy_terms, evidence_policy_schema}
use veyronis.Samples.{sample_ethers, address_of}
use veyronis.Attestcoin.{VerifiedSourceTransaction, direct_settlement, same_address}
use veyronis.Attestcoin.Commitment.{
  same_hex, hash, compute_evidence_policy_commitment, compute_evidence_commitment, compute_claim_id,
  compute_source_evidence_key,
}
use veyronis.Attestcoin.Evaluator.{
  evaluate, evaluate_asset, evaluate_native, check_amount, amount_satisfies,
}
use veyronis.Attestcoin.Verifier.Interfaces.{perform}
use veyronis.Attestcoin.Verifier.Checks.{
  check_request, check_transaction, check_interpretation, make_claim, check_escrow, check_mode,
  make_facts,
}
use veyronis.Attestcoin.Verifier.{
  check_replay, submission_of, submit_claim, is_settled, confirm, settle, caught, authorize,
  submit_evidence, verify_and_submit,
}
use veyronis.Attestcoin.Verifier.Examples.{services, request, claim, calls}
use veyronis.Attestcoin.Proof.{ask, ask_or, get_proof_result}
use veyronis.Attestcoin.Proof.Leaf.{decode_attested_transaction}
use veyronis.Attestcoin.Proof.Service.{verify}
use veyronis.Attestcoin.Proof.Proved.{IsProved}
use veyronis.Attestcoin.Proof.Composed.{live_services, verify_and_submit-IsProved}
use veyronis.Attestcoin.Proof.Examples.{coder, config, providers}

submitted :
    (verify_and_submit sample_ethers
      (live_services sample_ethers coder config providers (λ t. 7) services)
      request
      []).1
    ≡ calls
unfolding verify_and_submit submit_evidence authorize settle caught confirm submit_claim
    submission_of check_replay is_settled check_request check_transaction check_interpretation
    make_claim check_escrow check_mode make_facts evaluate evaluate_asset evaluate_native
    check_amount amount_satisfies evidence_policy_schema policy_shape policy_terms same_address
    same_hex hash compute_evidence_policy_commitment compute_evidence_commitment compute_claim_id
    compute_source_evidence_key address_of to_lower_case perform ◌>>=◌ verify ask ask_or
    get_proof_result decode_attested_transaction decimal find
submitted = refl

verify_and_submit-IsProved_example :
    (tx : VerifiedSourceTransaction) × IsProved sample_ethers coder config providers request tx
    × (claim.source_chain_key ≡ tx.source_chain_key)
    × (claim.source_transaction_hash ≡ tx.source_transaction_hash)
verify_and_submit-IsProved_example =
    verify_and_submit-IsProved sample_ethers coder config providers (λ t. 7) services request
      direct_settlement claim (rw submitted (Memᴰ.tail (Memᴰ.head refl)))
