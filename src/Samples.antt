-- ===== src/Samples.antt =====
-- Small values for the tests: an ethers package that knows addresses by their pattern and hashes
-- everything to one text, a policy for a payment of 250 wei, and a transaction that pays it.
use veyronis.Prelude.{String, true, false, Option, none, some, if◌then◌else◌}
use veyronis.Prelude.Text.{to_lower_case, is_hex}
use veyronis.Ethers.{Ethers}
use veyronis.Shared.Policy.{EvidencePolicy, native, erc20, exact, minimum}

unfoldable pub address_of : String → Option String
unfolding is_hex to_lower_case
address_of s = if is_hex 40 s then some (to_lower_case s) else none

abbrev pub sample_ethers : Ethers
sample_ethers = record {
  get_address = address_of;
  keccak256 = λ b. b;
  to_utf8_bytes = λ s. s;
  encode = λ values. some "0xhash";
  decode_uint256 = λ s. some 250;
  id = λ s. s;
  decode_transfer = λ s. none;
  zero_address = "0x0000000000000000000000000000000000000000";
  zero_hash = "0x00";
}

abbrev pub payer : String
payer = "0x1111111111111111111111111111111111111111"

abbrev pub payee : String
payee = "0x2222222222222222222222222222222222222222"

abbrev pub judge : String
judge = "0x3333333333333333333333333333333333333333"

abbrev pub vault : String
vault = "0x4444444444444444444444444444444444444444"

abbrev pub sample_hash : String
sample_hash = "0xABababababababababababababababababababababababababababababababab"

abbrev pub native_policy : EvidencePolicy
native_policy = record {
  version = 1;
  evidence_type = sample_hash;
  source_chain_key = 1;
  asset_kind = native;
  expected_source_contract = "0x0000000000000000000000000000000000000000";
  expected_recipient = payee;
  expected_asset = "0x0000000000000000000000000000000000000000";
  expected_sender = payer;
  amount_rule = minimum;
  amount = "250";
  min_source_block = "10";
  max_source_block = "0";
  calldata_selector = "0x00000000";
  require_transfer_event = false;
}

abbrev pub token_policy : EvidencePolicy
token_policy = record native_policy {
  asset_kind = erc20;
  expected_source_contract = vault;
  expected_asset = vault;
  amount_rule = exact;
  require_transfer_event = true;
}
