-- ===== src/Attestcoin/Commitment.antt =====
-- The hashes of backend/src/attestcoin/attestcoin-verifier.ts, and the policy commitment of
-- packages/shared/src/index.ts. `none` is an encoding that throws.
use veyronis.Prelude.{ℕ, String, Bool, Option, List, [], ◌∷◌}
use veyronis.Prelude.Text.{to_lower_case, big_int}
use veyronis.Ethers.{Ethers, AbiValue, uint, bytes, address, bool}
use veyronis.Shared.Policy.{AssetKind, native, erc20, AmountRule, exact, minimum, EvidencePolicy}
use veyronis.Attestcoin.{VerifiedEvidenceClaim}
use mathlib.Core.Option
use text.Mathlib.Text.{◌==◌}

-- `left.toLowerCase() === right.toLowerCase()`.
unfoldable pub same_hex : String → String → Bool
unfolding to_lower_case
same_hex left right = to_lower_case left == to_lower_case right

abbrev asset_code : AssetKind → ℕ
asset_code native = 0
asset_code erc20 = 1

abbrev rule_code : AmountRule → ℕ
rule_code exact = 0
rule_code minimum = 1

module _ (e : Ethers) where
  unfoldable pub hash : List AbiValue → Option String
  hash values = Option.map e.keccak256 (e.encode values)

  unfoldable pub policy_values : EvidencePolicy → List AbiValue
  unfolding big_int
  policy_values p =
      uint 8 p.version
      ∷ bytes 32 p.evidence_type
      ∷ uint 64 p.source_chain_key
      ∷ uint 8 (asset_code p.asset_kind)
      ∷ address p.expected_source_contract
      ∷ address p.expected_recipient
      ∷ address p.expected_asset
      ∷ address p.expected_sender
      ∷ uint 8 (rule_code p.amount_rule)
      ∷ uint 256 (big_int p.amount)
      ∷ uint 64 (big_int p.min_source_block)
      ∷ uint 64 (big_int p.max_source_block)
      ∷ bytes 4 p.calldata_selector
      ∷ bool p.require_transfer_event
      ∷ []

  unfoldable pub compute_evidence_policy_commitment : EvidencePolicy → Option String
  unfolding hash policy_values
  compute_evidence_policy_commitment p = hash (policy_values p)

  unfoldable pub compute_evidence_commitment : String → String → ℕ → String → String → Option String
  unfolding hash
  compute_evidence_commitment policy_commitment evidence_type chain_key transaction subject = hash (
      bytes 32 policy_commitment
      ∷ bytes 32 evidence_type
      ∷ uint 64 chain_key
      ∷ bytes 32 transaction
      ∷ address subject
      ∷ [])

  unfoldable pub claim_values : VerifiedEvidenceClaim → List AbiValue
  claim_values c =
      address c.escrow
      ∷ bytes 32 c.agreement_commitment
      ∷ bytes 32 c.evidence_policy_commitment
      ∷ bytes 32 c.evidence_commitment
      ∷ bytes 32 c.evidence_type
      ∷ uint 64 c.source_chain_key
      ∷ bytes 32 c.source_transaction_hash
      ∷ address c.subject
      ∷ []

  unfoldable pub compute_claim_id : VerifiedEvidenceClaim → Option String
  unfolding hash claim_values
  compute_claim_id c = hash (claim_values c)

  unfoldable pub compute_source_evidence_key : VerifiedEvidenceClaim → Option String
  unfolding hash
  compute_source_evidence_key c = hash (
      bytes 32 c.evidence_type
      ∷ uint 64 c.source_chain_key
      ∷ bytes 32 c.source_transaction_hash
      ∷ address c.subject
      ∷ [])
