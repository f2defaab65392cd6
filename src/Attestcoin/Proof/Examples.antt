-- ===== src/Attestcoin/Proof/Examples.antt =====
-- Runs of the proof service on small inputs.
use veyronis.Prelude.{ℕ, ◌≡◌, refl, true, false, none, some, [], ◌∷◌, ◌≢◌, find}
use veyronis.Prelude.Flow.{Flow, next, failed, threw}
use veyronis.Prelude.Flow.Run.{◌>>=◌}
use veyronis.Prelude.Text.{to_lower_case}
use veyronis.Prelude.Text.Decimal.{decimal}
use veyronis.Samples.{sample_ethers, payer, payee, vault, sample_hash, native_policy, address_of}
use veyronis.Attestcoin.{
  Failure, failure, AttestcoinProofRequest, VerifiedSourceTransaction, VerifiedSourceLog,
  direct_settlement, proof_not_found,
}
use veyronis.Attestcoin.Commitment.{same_hex}
use veyronis.Attestcoin.Proof.{
  AppConfig, Providers, Asking, AttestcoinProof, ask, ask_or, get_proof_result,
  proof_provider_status_code,
}
use veyronis.Attestcoin.Proof.Leaf.{
  Coder, DecodedAttestedTransaction, RawLog, decode_attested_transaction,
}
use veyronis.Attestcoin.Proof.Leaf.Fits.{LeafFits, decode_attested_transaction-LeafFits}
use veyronis.Attestcoin.Proof.Service.{verify}
use veyronis.Attestcoin.Proof.Proved.{IsProved, verify-IsProved, verify-reports}

abbrev raw_log : RawLog
raw_log = record { address = vault; topics = "0xaa" ∷ []; raw_data = "0xfa" }

abbrev pub coder : Coder
coder = record {
  decode_leaf = λ b. some (0, "common" ∷ "type" ∷ "receipt" ∷ []);
  decode_common = λ c. some (record {
    nonce = 4;
    gas_limit = 21000;
    sender = payer;
    creates = false;
    recipient = payee;
    value = 250;
    call_data = "0x";
  });
  decode_legacy = λ c. some (1, record { r = "0x1"; s = "0x2"; parity = 27 });
  decode_access_list = λ c. none;
  decode_dynamic_fee = λ c. none;
  decode_receipt = λ c. some (record {
    status = 1;
    gas_used = 21000;
    receipt_logs = raw_log ∷ raw_log ∷ [];
    bloom = "0x";
  });
  transaction_from = λ f. some (record { hash = some sample_hash; from = some payer });
}

abbrev pub config : AppConfig
config = record {
  sepolia_chain_key = 1;
  attestation_poll_interval_ms = 5000;
  attestation_wait_timeout_ms = 60000;
  proof_builder_wait_timeout_ms = 60000;
}

abbrev answering : {A : Type 0} → A → Asking ℕ A
answering a w = (some a, w)

abbrev proof : AttestcoinProof
proof = record {
  chain_key = 1;
  header_number = 12;
  tx_hash = sample_hash;
  tx_index = 3;
  tx_bytes = "0xleaf";
  merkle_proof = "merkle";
  continuity_proof = "continuity";
}

-- The world is the height that Creditcoin has attested; waiting raises it to the height asked for.
abbrev pub providers : Providers ℕ
providers = record {
  source_chain_id = answering 11155111;
  get_transaction = λ h. answering (some (record { block_number = some 12 }));
  get_transaction_receipt =
      λ h. answering (some (record { block_number = some 12; status = some 1 }));
  get_block = λ n. answering (some (record { number = some n }));
  creditcoin_chain_id = answering 102031;
  get_supported_chains = answering (record { chain_key = 1; chain_id = 11155111 } ∷ []);
  get_latest_attested = λ k w. (some (record { exists = true; height = w }), w);
  wait_until_height_attested = λ k n p t d w. (some tt, n);
  builder_wait = none;
  builder_get_proof =
      λ h. answering (record { success = true; response_data = some proof; error = none });
  compute_transaction_index = λ m. answering 3;
  verify_single = λ k n b m c. answering true;
}

abbrev request : AttestcoinProofRequest
request = record {
  escrow_address = vault;
  source_chain_key = 1;
  transaction_hash = sample_hash;
  agreement_commitment = "0xagreement";
  evidence_policy_commitment = "0xhash";
  evidence_commitment = "0xhash";
  evidence_type = sample_hash;
  subject = payer;
  policy = native_policy;
  condition_submission = some direct_settlement;
}

abbrev decoded_log : VerifiedSourceLog
decoded_log = record { address = vault; topics = "0xaa" ∷ []; log_data = "0xfa" }

abbrev leaf : DecodedAttestedTransaction
leaf = record {
  hash = sample_hash;
  chain_id = "0";
  from = payer;
  to = some payee;
  value = "250";
  calldata = "0x";
  receipt_status = 1;
  logs = decoded_log ∷ decoded_log ∷ [];
}

abbrev tx : VerifiedSourceTransaction
tx = record {
  source_chain_key = 1;
  source_transaction_hash = sample_hash;
  source_block_number = 12;
  transaction_index = 3;
  from = payer;
  to = some payee;
  chain_id = "0";
  value = "250";
  calldata = "0x";
  receipt_status = 1;
  logs = decoded_log ∷ decoded_log ∷ [];
}

decoded : decode_attested_transaction sample_ethers coder "0xleaf" ≡ some leaf
unfolding decode_attested_transaction address_of decimal
decoded = refl

-- From a world in which block 7 is attested, the service waits for block 12.
proved :
    ◌≡◌ {A = Flow Failure VerifiedSourceTransaction × ℕ}
      (verify sample_ethers coder config providers request 7)
      (next tx, 12)
unfolding verify ask ask_or get_proof_result same_hex decode_attested_transaction address_of decimal
    ◌>>=◌ to_lower_case find
proved = refl

abbrev not_proved : Providers ℕ
not_proved = record providers {
  builder_get_proof = λ h. answering (record {
    success = false;
    response_data = none;
    error = some "Request failed with status code 404";
  });
}

not_found :
    ◌≡◌ {A = Flow Failure VerifiedSourceTransaction × ℕ}
      (verify sample_ethers coder config not_proved request 12)
      (
        failed
            (failure proof_not_found "The Proof Builder has no proof for the source transaction"),
        12,
      )
unfolding verify ask ask_or get_proof_result proof_provider_status_code to_lower_case ◌>>=◌ find
not_found = refl

decode_attested_transaction-LeafFits_example : LeafFits sample_ethers coder "0xleaf" leaf
decode_attested_transaction-LeafFits_example =
    decode_attested_transaction-LeafFits sample_ethers coder "0xleaf" leaf decoded

verify-IsProved_example : IsProved sample_ethers coder config providers request tx
verify-IsProved_example =
    verify-IsProved sample_ethers coder config providers request 7 12 tx proved

verify-reports_example : (verify sample_ethers coder config not_proved request 12).0 ≢ threw
verify-reports_example = verify-reports sample_ethers coder config not_proved request 12
