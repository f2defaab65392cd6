-- ===== src/Dashboard/Listing/Examples.antt =====
-- A participant's list over the small agreement and its contract.
use veyronis.Prelude.{String, ◌≡◌, refl, some, [], ◌∷◌}
use veyronis.Prelude.Flow.{next}
use veyronis.Prelude.Flow.Run.{◌>>=◌}
use veyronis.Prelude.Text.{to_lower_case}
use veyronis.Samples.{sample_ethers, payer, address_of}
use veyronis.Shared.Agreement.{agreement_lifecycle_mode}
use veyronis.Shared.Escrow.{buyer}
use veyronis.Dashboard.{metadata_for_participant}
use veyronis.Dashboard.Reconciliation.{reconcile, mismatches_of, compare_address, compare}
use veyronis.Dashboard.Snapshot.{ListedAgreement, role_for}
use veyronis.Dashboard.Examples.{agreement, on_chain, matched_report, dashboard}
use veyronis.Dashboard.Service.{record_result}
use veyronis.Dashboard.Listing.{
  reconciled_chain, chain_of, listed_agreement, and_all, listed_agreements, list,
}
use veyronis.Dashboard.Listing.Listed.{AreListed, list-AreListed}

abbrev listed_item : ListedAgreement
listed_item = record { metadata = agreement; role = buyer; chain = some on_chain }

lists :
    list sample_ethers dashboard payer []
    ≡ (next (listed_item ∷ []), matched_report.reconciliation ∷ [])
unfolding list record_result listed_agreements and_all listed_agreement chain_of reconciled_chain
    role_for metadata_for_participant agreement_lifecycle_mode reconcile mismatches_of
    compare_address compare to_lower_case address_of ◌>>=◌
lists = refl

list-AreListed_example :
    (address : String) × (sample_ethers.get_address payer ≡ some address)
    × AreListed sample_ethers dashboard address (agreement ∷ []) (listed_item ∷ [])
list-AreListed_example =
    list-AreListed sample_ethers dashboard payer [] (listed_item ∷ [])
      (matched_report.reconciliation ∷ []) lists
