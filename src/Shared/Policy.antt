-- ===== src/Shared/Policy.antt =====
-- The evidence policy of packages/shared/src/index.ts, its schema, and the external blockchain
-- condition that a policy stands for. Amounts and block numbers are decimal texts, as in the
-- source; the numbers that the schema wants to be whole and positive are natural numbers here.
pub mod Schema
pub mod Examples
use veyronis.Prelude.{
  ℕ, zero, ◌-◌, ◌^◌, String, ◌≡◌, Bool, true, false, not, ◌&&◌, ◌||◌, Option, none, some, ltb, leb,
  ◌==◌ as nat_eq, if◌then◌else◌, is_some,
}
use veyronis.Prelude.Text.{to_lower_case, is_hex, is_uint, big_int}
use veyronis.Ethers.{Ethers}
use text.Mathlib.Text.{◌==◌}

pub data AssetKind : Type 0 where
  native erc20 : AssetKind

pub data AmountRule : Type 0 where
  exact minimum : AmountRule

pub record EvidencePolicy : Type 0 where
  pub version : ℕ
  pub evidence_type : String
  pub source_chain_key : ℕ
  pub asset_kind : AssetKind
  pub expected_source_contract : String
  pub expected_recipient : String
  pub expected_asset : String
  pub expected_sender : String
  pub amount_rule : AmountRule
  pub amount : String
  pub min_source_block : String
  pub max_source_block : String
  pub calldata_selector : String
  pub require_transfer_event : Bool

abbrev pub zero_address : String
zero_address = "0x0000000000000000000000000000000000000000"

abbrev pub zero_selector : String
zero_selector = "0x00000000"

unfoldable pub bytes32_schema : String → Bool
unfolding is_hex
bytes32_schema s = is_hex 64 s

unfoldable pub address_schema : String → Bool
unfolding is_hex
address_schema s = is_hex 40 s

unfoldable pub bytes4_schema : String → Bool
unfolding is_hex
bytes4_schema s = is_hex 8 s

-- `BigInt(value) <= (1n << w) - 1n`, on a text of the pattern.
unfoldable pub uint_string_schema : ℕ → String → Bool
unfolding is_uint big_int
uint_string_schema w value = is_uint value && leb (big_int value) (2 ^ w - 1)

is_zero_address : String → Bool
unfolding to_lower_case
is_zero_address a = to_lower_case a == zero_address

-- `z.number().int().positive()`, of a whole number: zod takes safe integers only.
unfoldable pub chain_key_schema : ℕ → Bool
chain_key_schema n = ltb 0 n && leb n (2 ^ 53 - 1)

-- The shape that `z.object` checks before the refinement runs.
unfoldable pub policy_shape : EvidencePolicy → Bool
unfolding bytes32_schema address_schema bytes4_schema uint_string_schema chain_key_schema
policy_shape p =
    nat_eq version 1
    && bytes32_schema evidence_type
    && chain_key_schema source_chain_key
    && address_schema expected_source_contract
    && address_schema expected_recipient
    && address_schema expected_asset
    && address_schema expected_sender
    && uint_string_schema 256 amount
    && uint_string_schema 64 min_source_block
    && uint_string_schema 64 max_source_block
    && bytes4_schema calldata_selector
  where
    open p use {
      version, evidence_type, source_chain_key, expected_source_contract, expected_recipient,
      expected_asset, expected_sender, amount, min_source_block, max_source_block,
      calldata_selector,
    }

-- The test that each kind of asset adds.
asset_terms : AssetKind → EvidencePolicy → Bool
unfolding is_zero_address
asset_terms native p = is_zero_address p.expected_asset && not p.require_transfer_event
asset_terms erc20 p =
    not (is_zero_address p.expected_asset)
    && not (is_zero_address p.expected_source_contract)
    && p.require_transfer_event

window_terms : ℕ → ℕ → Bool
window_terms first last = nat_eq last 0 || leb first last

selector_terms : String → Bool
unfolding to_lower_case
selector_terms selector =
    to_lower_case selector == zero_selector || to_lower_case selector == "0xa9059cbb"

-- The refinement: `true` where it adds no issue.
unfoldable pub policy_terms : EvidencePolicy → Bool
unfolding is_zero_address asset_terms window_terms selector_terms big_int
policy_terms p =
    not (is_zero_address p.expected_recipient)
    && not (is_zero_address p.expected_sender)
    && not (nat_eq (big_int p.amount) 0)
    && window_terms (big_int p.min_source_block) (big_int p.max_source_block)
    && asset_terms p.asset_kind p
    && selector_terms p.calldata_selector

-- `evidencePolicySchema.safeParse(policy).success`.
unfoldable pub evidence_policy_schema : EvidencePolicy → Bool
evidence_policy_schema p = policy_shape p && policy_terms p

pub record ExternalBlockchainCondition : Type 0 where
  pub source_chain_key : ℕ
  pub asset_type : AssetKind
  pub token_contract : Option String
  pub expected_sender : String
  pub expected_recipient : String
  pub amount : String
  pub amount_rule : AmountRule
  pub require_success : Bool

token_terms : AssetKind → Option String → Bool
token_terms native token = not (is_some token)
token_terms erc20 token = is_some token

optional_address : Option String → Bool
unfolding address_schema
optional_address none = true
optional_address (some a) = address_schema a

-- `externalBlockchainConditionSchema.safeParse(condition).success`.
unfoldable pub external_blockchain_condition_schema : ExternalBlockchainCondition → Bool
unfolding token_terms optional_address address_schema uint_string_schema chain_key_schema
external_blockchain_condition_schema c =
    chain_key_schema c.source_chain_key
    && optional_address c.token_contract
    && address_schema c.expected_sender
    && address_schema c.expected_recipient
    && uint_string_schema 256 c.amount
    && token_terms c.asset_type c.token_contract
    && c.require_success

-- `id("BLOCKCHAIN_VERIFICATION_DISABLED")`.
abbrev pub disabled_evidence_type : Ethers → String
disabled_evidence_type e = e.id "BLOCKCHAIN_VERIFICATION_DISABLED"

token_of : AssetKind → String → Option String
token_of native asset = none
token_of erc20 asset = some asset

-- `undefined` is `none`.
unfoldable pub external_blockchain_condition_from_policy :
    Ethers → EvidencePolicy → Option ExternalBlockchainCondition
unfolding token_of
external_blockchain_condition_from_policy e p =
    if p.evidence_type == disabled_evidence_type e
    then none
    else some (record {
      source_chain_key = p.source_chain_key;
      asset_type = p.asset_kind;
      token_contract = token_of p.asset_kind p.expected_asset;
      expected_sender = p.expected_sender;
      expected_recipient = p.expected_recipient;
      amount = p.amount;
      amount_rule = p.amount_rule;
      require_success = true;
    })
