-- ===== src/Dashboard/Reconciliation.antt =====
-- backend/src/agreements/reconciliation-service.ts: the stored terms of an agreement beside those
-- of its contract. `none` of the reader is a call that throws.
pub mod Matched
use veyronis.Prelude.{
  ℕ, String, ◌≡◌, Bool, true, false, not, Option, none, some, List, [], ◌∷◌, ◌++◌, ◌==◌ as nat_eq,
  if◌then◌else◌, length,
}
use veyronis.Prelude.Flow.{Flow, next, failed, threw, or_throw, or_fail, ◌>>=◌}
use veyronis.Prelude.Text.{to_lower_case, truthy}
use veyronis.Ethers.{Ethers}
use veyronis.Shared.Agreement.{AgreementMetadata}
use veyronis.Shared.Chain.{AgreementChainSnapshot, AgreementTimelineEvent}
use text.Mathlib.Text.{◌==◌}

-- Either call may fail. Each is made at most once for an agreement in one request, so functions
-- cover any answers that the contract and the node give to it.
pub record AgreementContractReader : Type 0 where
  pub read_snapshot : (address participant : String) → Option AgreementChainSnapshot
  pub read :
      (address participant : String) (from_block : Option String)
      → Option (AgreementChainSnapshot × List AgreementTimelineEvent)

pub data ReconciliationStatus : Type 0 where
  matched metadata_stale : ReconciliationStatus

-- The authoritative source is always the blockchain, so there is no field for it.
pub record AgreementReconciliation : Type 0 where
  pub status : ReconciliationStatus
  pub mismatches : List String
  pub checked_at_block : String

pub record Reconciled : Type 0 where
  pub snapshot : AgreementChainSnapshot
  pub timeline : List AgreementTimelineEvent
  pub reconciliation : AgreementReconciliation

-- `compare(mismatches, field, metadata, chain)`.
unfoldable pub compare : List String → String → String → String → List String
unfolding to_lower_case
compare mismatches field metadata chain =
    if not (to_lower_case metadata == to_lower_case chain)
    then mismatches ++ (field ∷ [])
    else mismatches

-- `compareAddress`, whose two calls of `getAddress` may throw.
unfoldable pub compare_address :
    Ethers → List String → String → String → String → Flow String (List String)
compare_address e mismatches field metadata chain = do
  m ← or_throw (e.get_address metadata)
  c ← or_throw (e.get_address chain)
  next (if not (m == c) then mismatches ++ (field ∷ []) else mismatches)

-- The seven comparisons, in order.
unfoldable pub mismatches_of :
    Ethers → AgreementMetadata → String → AgreementChainSnapshot → Flow String (List String)
unfolding compare
mismatches_of e metadata escrow s = do
  m1 ← compare_address e [] "escrow address" escrow s.escrow_address
  m2 ← compare_address e m1 "buyer" metadata.buyer s.buyer
  m3 ← compare_address e m2 "seller" metadata.seller s.seller
  m4 ← compare_address e m3 "arbitrator" metadata.arbitrator s.arbitrator
  next (
      compare
        (compare (compare m4 "required amount" metadata.required_amount s.required_amount)
          "agreement commitment" metadata.agreement_commitment s.agreement_commitment)
        "evidence policy commitment" metadata.evidence_policy_commitment
        s.evidence_policy_commitment)

status_of : List String → ReconciliationStatus
status_of mismatches = if nat_eq (length mismatches) 0 then matched else metadata_stale

unfoldable pub reconcile :
    Ethers → AgreementContractReader → AgreementMetadata → String → Flow String Reconciled
unfolding status_of
reconcile e reader metadata participant = do
  escrow ← or_fail (truthy metadata.escrow_address) "Agreement is not deployed"
  (snapshot, timeline) ← or_throw (reader.read escrow participant metadata.deployment_block_number)
  mismatches ← mismatches_of e metadata escrow snapshot
  next (record {
    snapshot = snapshot;
    timeline = timeline;
    reconciliation = record {
      status = status_of mismatches;
      mismatches = mismatches;
      checked_at_block = snapshot.block_number;
    };
  })
