-- ===== src/Shared/Policy/Schema.antt =====
-- What the policy schema of packages/shared/src/index.ts guarantees of a policy that it accepts.
use veyronis.Prelude.{
  ℕ, ◌-◌, ◌^◌, ◌≤◌, ◌<◌, String, ◌≡◌, ◌≢◌, ◌⊎◌, ◌↔◌, Bool, true, false, ◌&&◌, arith, and-eq-true,
}
use veyronis.Prelude.Text.{to_lower_case, big_int, is_uint}
use text.Mathlib.TextEquality.{eq_iff}
use veyronis.Shared.Policy.{
  AssetKind, native, erc20, EvidencePolicy, zero_address, evidence_policy_schema, policy_shape,
  bytes32_schema, address_schema, bytes4_schema, uint_string_schema, chain_key_schema, policy_terms,
  is_zero_address, asset_terms, window_terms, selector_terms, zero_selector,
}

-- A decimal text of a number of this many bits.
abbrev pub IsUint : ℕ → String → Type 0
IsUint w s = (is_uint s ≡ true) × (big_int s ≤ 2 ^ w - 1)

-- The asset of a policy fits its kind.
abbrev pub AssetFits : AssetKind → EvidencePolicy → Type 0
AssetFits native p =
    (to_lower_case p.expected_asset ≡ zero_address) × (p.require_transfer_event ≡ false)
AssetFits erc20 p =
    (to_lower_case p.expected_asset ≢ zero_address)
    × (to_lower_case p.expected_source_contract ≢ zero_address)
    × (p.require_transfer_event ≡ true)

-- The shape of a policy, field by field.
pub record HasShape (p : EvidencePolicy) : Type 0 where
  pub version : p.version ≡ 1
  pub evidence_type : bytes32_schema p.evidence_type ≡ true
  pub chain_positive : 1 ≤ p.source_chain_key
  pub chain_safe : p.source_chain_key ≤ 2 ^ 53 - 1
  pub source_contract : address_schema p.expected_source_contract ≡ true
  pub recipient : address_schema p.expected_recipient ≡ true
  pub asset : address_schema p.expected_asset ≡ true
  pub sender : address_schema p.expected_sender ≡ true
  pub amount : IsUint 256 p.amount
  pub min_source_block : IsUint 64 p.min_source_block
  pub max_source_block : IsUint 64 p.max_source_block
  pub selector : bytes4_schema p.calldata_selector ≡ true

-- The refinement of the schema, said of the values.
pub record IsSound (p : EvidencePolicy) : Type 0 where
  pub recipient : to_lower_case p.expected_recipient ≢ zero_address
  pub sender : to_lower_case p.expected_sender ≢ zero_address
  pub positive : 0 < big_int p.amount
  pub window :
      (big_int p.max_source_block ≡ 0) ⊎ (big_int p.min_source_block ≤ big_int p.max_source_block)
  pub asset : AssetFits p.asset_kind p
  pub selector :
      (to_lower_case p.calldata_selector ≡ zero_selector)
      ⊎ (to_lower_case p.calldata_selector ≡ "0xa9059cbb")

is_zero_address_iff : (a : String) → (is_zero_address a ≡ true) ↔ (to_lower_case a ≡ zero_address)
unfolding is_zero_address
is_zero_address_iff a = eq_iff (to_lower_case a) zero_address

asset_terms_iff : (k : AssetKind) (p : EvidencePolicy) → (asset_terms k p ≡ true) ↔ AssetFits k p
unfolding asset_terms
asset_terms_iff native p = ground (arith, is_zero_address_iff p.expected_asset)
asset_terms_iff erc20 p =
    ground
      (arith, is_zero_address_iff p.expected_asset, is_zero_address_iff p.expected_source_contract)

window_terms_iff : (m n : ℕ) → (window_terms m n ≡ true) ↔ ((n ≡ 0) ⊎ (m ≤ n))
unfolding window_terms
window_terms_iff m n = ground arith

selector_terms_iff :
    (s : String)
    → (selector_terms s ≡ true)
      ↔ ((to_lower_case s ≡ zero_selector) ⊎ (to_lower_case s ≡ "0xa9059cbb"))
unfolding selector_terms
selector_terms_iff s =
    ground (arith, eq_iff (to_lower_case s) zero_selector, eq_iff (to_lower_case s) "0xa9059cbb")

policy_terms_iff : (p : EvidencePolicy) → (policy_terms p ≡ true) ↔ IsSound p
unfolding policy_terms
policy_terms_iff p = ground (
  arith,
  is_zero_address_iff p.expected_recipient,
  is_zero_address_iff p.expected_sender,
  window_terms_iff (big_int p.min_source_block) (big_int p.max_source_block),
  asset_terms_iff p.asset_kind p,
  selector_terms_iff p.calldata_selector,
)

both : (a b : Bool) → a ≡ true → b ≡ true → (a && b) ≡ true
both a b h k = ground arith

uint_string_schema_iff : (w : ℕ) (s : String) → (uint_string_schema w s ≡ true) ↔ IsUint w s
unfolding uint_string_schema
uint_string_schema_iff w s = ground arith

chain_key_schema_iff : (n : ℕ) → (chain_key_schema n ≡ true) ↔ ((1 ≤ n) × (n ≤ 2 ^ 53 - 1))
unfolding chain_key_schema
chain_key_schema_iff n = ground arith

policy_shape_iff : (p : EvidencePolicy) → (policy_shape p ≡ true) ↔ HasShape p
unfolding policy_shape
policy_shape_iff p = ground (
  arith,
  chain_key_schema_iff p.source_chain_key,
  uint_string_schema_iff 256 p.amount,
  uint_string_schema_iff 64 p.min_source_block,
  uint_string_schema_iff 64 p.max_source_block,
)

-- The schema accepts a policy exactly when it has the shape of one, with a positive chain key that
-- is a safe integer, texts of the right patterns and numbers of the right widths, and its values
-- are sound.
pub evidence_policy_schema_iff :
    (p : EvidencePolicy) → (evidence_policy_schema p ≡ true) ↔ (HasShape p × IsSound p)
unfolding evidence_policy_schema
evidence_policy_schema_iff p = (
  λ h.
      let (shape, terms) = and-eq-true (policy_shape p) (policy_terms p) h in
      ((policy_shape_iff p).0 shape, (policy_terms_iff p).0 terms),
  λ (shape, sound).
      both (policy_shape p) (policy_terms p) ((policy_shape_iff p).1 shape)
        ((policy_terms_iff p).1 sound),
)
