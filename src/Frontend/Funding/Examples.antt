-- ===== src/Frontend/Funding/Examples.antt =====
-- A deposit that goes through.
use veyronis.Prelude.{ℕ, zero, suc, ◌≡◌, ◌↔◌, refl, true, false, none, some}
use veyronis.Prelude.Flow.{Flow, next}
use veyronis.Samples.{payer, payee, judge, vault, sample_hash}
use veyronis.Shared.Chain.{AgreementChainSnapshot}
use veyronis.Shared.Escrow.{awaiting_payment, awaiting_delivery, buyer}
use veyronis.Contract.{Terms, Method, guards, created}
use veyronis.Contract.Funds.{IsSolvent}
use veyronis.Frontend.Executor.{
  TransactionReceiptInfo, answered, idle, complete, execute_wallet_transaction,
}
use veyronis.Frontend.Executor.Path.{IsPath, execute_wallet_transaction-IsPath}
use veyronis.Frontend.Funding.{
  FundingDetails, FundingState, FundingServices, funding_transaction, check_funding_state,
}
use veyronis.Frontend.Funding.Funded.{Funded}
use veyronis.Frontend.Funding.Guards.{view, check_funding_state_iff}

abbrev chain : AgreementChainSnapshot
chain = record {
  escrow_address = vault;
  buyer = payer;
  seller = payee;
  arbitrator = judge;
  required_amount = "250";
  agreement_commitment = "0xAA";
  evidence_policy_commitment = "0xBB";
  state = awaiting_payment;
  deposited_amount = "0";
  active_evidence_commitment = "0x00";
  verified_claim_id = "0x00";
  withdrawal_amount = "0";
  block_number = "7";
}

abbrev pub details : FundingDetails
details = record { role = buyer; chain = some chain }

abbrev pub funded_details : FundingDetails
funded_details = record {
  role = buyer;
  chain = some (record chain { state = awaiting_delivery; deposited_amount = "250" });
}

-- The world is 0 until the deposit.
abbrev state_in : ℕ → FundingState
state_in zero = record { state = 0; deposited_amount = 0; required_amount = 250 }
state_in (suc n) = record { state = 1; deposited_amount = 250; required_amount = 250 }

abbrev pub services : FundingServices ℕ
services = record {
  signer_address = λ w. (answered payer, w);
  get_balance = λ a w. (answered 1000, w);
  chain_id = λ w. (answered 11155111, w);
  read_funding_state = λ a w. (answered (state_in w), w);
  deposit = λ a amount w. (answered sample_hash, 1);
  wait = λ w. (answered (some (record { status = some 1; block_number = 8 })), w);
  receipt_confirmations = λ w. (answered 1, w);
  reconcile = λ w. (answered (some funded_details), w);
  explorer_transaction_url = λ network hash. none;
}

abbrev pub receipt : TransactionReceiptInfo
receipt = record {
  hash = some sample_hash;
  status = complete;
  block_number = some "8";
  confirmations = some 1;
  error = none;
  message = none;
  explorer_url = none;
}

execute_wallet_transaction-IsPath_example :
    IsPath idle (execute_wallet_transaction (funding_transaction services chain 250 11155111) 0).0
execute_wallet_transaction-IsPath_example =
    execute_wallet_transaction-IsPath (funding_transaction services chain 250 11155111) 0

abbrev terms : Terms
terms = record {
  buyer = 1;
  seller = 2;
  arbitrator = 3;
  evidence_registry = 4;
  agreement_commitment = 5;
  evidence_policy_commitment = 6;
  required_amount = 250;
  direct_condition_settlement = false;
}

solvent : IsSolvent terms created
solvent = record {
  held = refl;
  accounted = refl;
  others = λ a x y. refl;
  buyer_owed = λ k. refl;
  seller_owed = λ k. refl;
}

check_funding_state_iff_example :
    (check_funding_state (view terms created) 250 ≡ next tt)
    ↔ (guards terms 1 (Method.deposit 250) created ≡ true)
check_funding_state_iff_example = check_funding_state_iff terms created 250 solvent
