-- ===== src/Dashboard/Listing.antt =====
-- `AgreementDashboardService.list` of backend/src/agreements/dashboard-service.ts: a participant's
-- own agreements. `Promise.all` lets every item run to its end, here in the order of the list, and
-- fails with the first failure.
pub mod Listed
pub mod Examples
use veyronis.Prelude.{String, ◌≡◌, Option, none, some, List, [], ◌∷◌}
use veyronis.Prelude.Flow.{Flow, next, failed, threw, or_throw}
use veyronis.Prelude.Flow.Run.{Run, pure, lift, ◌>>=◌, ◌>>◌}
use veyronis.Prelude.Text.{truthy}
use veyronis.Ethers.{Ethers}
use veyronis.Shared.Agreement.{AgreementMetadata}
use veyronis.Shared.Escrow.{ParticipantRole}
use veyronis.Shared.Chain.{AgreementChainSnapshot}
use veyronis.Dashboard.{metadata_for_participant}
use veyronis.Dashboard.Reconciliation.{reconcile}
use veyronis.Dashboard.Snapshot.{DashboardServices, ListedAgreement, role_for}
use veyronis.Dashboard.Service.{record_result}

module _ {S : Type 0} (e : Ethers) (services : DashboardServices S) where
  -- The body of the `try`.
  unfoldable pub reconciled_chain : AgreementMetadata → String → Run S String AgreementChainSnapshot
  reconciled_chain m address = do
    r ← lift (reconcile e services.reader (metadata_for_participant e m) address)
    record_result e services m.id r
    pure r.snapshot

  unfoldable pub or_snapshot :
      String
      → String
      → Flow String AgreementChainSnapshot × S
      → Flow String AgreementChainSnapshot × S
  or_snapshot escrow address (next c, s) = (next c, s)
  or_snapshot escrow address (failed message, s) =
      (or_throw (services.reader.read_snapshot escrow address), s)
  or_snapshot escrow address (threw, s) =
      (or_throw (services.reader.read_snapshot escrow address), s)

  unfoldable pub chain_of :
      AgreementMetadata → Option String → String → Run S String (Option AgreementChainSnapshot)
  unfolding or_snapshot
  chain_of m none address = pure none
  chain_of m (some escrow) address = do
    c ← λ s. or_snapshot escrow address (reconciled_chain m address s)
    pure (some c)

  unfoldable pub listed_agreement : String → AgreementMetadata → Run S String ListedAgreement
  listed_agreement address m = do
    role ← lift (role_for e m address)
    c ← chain_of m (truthy m.escrow_address) address
    pure (record { metadata = metadata_for_participant e m; role = role; chain = c })

  -- The rest of a `Promise.all` runs whether or not an item fails.
  unfoldable pub and_all :
      Flow String ListedAgreement
      → Flow String (List ListedAgreement)
      → Flow String (List ListedAgreement)
  and_all (next item) (next items) = next (item ∷ items)
  and_all (next item) (failed message) = failed message
  and_all (next item) threw = threw
  and_all (failed message) others = failed message
  and_all threw others = threw

  unfoldable pub listed_agreements :
      String → List AgreementMetadata → S → Flow String (List ListedAgreement) × S
  unfolding and_all
  listed_agreements address [] s = (next [], s)
  listed_agreements address (m ∷ rest) s =
      let (first, t) = listed_agreement address m s in
      let (others, u) = listed_agreements address rest t in (and_all first others, u)

  unfoldable pub list : String → Run S String (List ListedAgreement)
  list address_input s =
      (do
        address ← lift (or_throw (e.get_address address_input))
        listed_agreements address (services.list_agreements_for_participant address s))
        s
