-- ===== src/Dashboard/Service.antt =====
-- `AgreementDashboardService.details` of backend/src/agreements/dashboard-service.ts, over the state
-- `S` of the repositories.
pub mod Details
use veyronis.Prelude.{String, ◌≡◌, Option, none, some, [], List}
use veyronis.Prelude.Flow.{Flow, next, failed, threw, or_throw, or_fail}
use veyronis.Prelude.Flow.Run.{Run, pure, lift, ◌>>=◌, ◌>>◌}
use veyronis.Prelude.Text.{truthy}
use veyronis.Ethers.{Ethers}
use veyronis.Shared.Agreement.{AgreementMetadata}
use veyronis.Shared.Escrow.{ParticipantRole}
use veyronis.Dashboard.{metadata_for_participant}
use veyronis.Dashboard.Reconciliation.{Reconciled, reconcile}
use veyronis.Dashboard.Snapshot.{
  DashboardServices, AgreementDetails, role_for, snapshot_actions, snapshot_details,
}

module _ {S : Type 0} (e : Ethers) (services : DashboardServices S) where
  unfoldable pub record_result : String → Reconciled → Run S String (Unit {0})
  record_result id r s = elim (services.record_reconciliation id r.reconciliation s) [
    | none ↦ (threw, s)
    | some s' ↦ (next tt, s')
  ]

  -- The body of the `try`.
  unfoldable pub reconciled_details :
      AgreementMetadata → ParticipantRole → String → Run S String AgreementDetails
  unfolding record_result
  reconciled_details metadata role address = do
    r ← lift (reconcile e services.reader metadata address)
    record_result metadata.id r
    actions ← lift (snapshot_actions e services metadata role r.snapshot)
    pure (record {
      metadata = metadata;
      role = role;
      chain = some r.snapshot;
      timeline = r.timeline;
      reconciliation = some r.reconciliation;
      actions = actions;
    })

  recover :
      Flow String AgreementDetails × S
      → Flow String AgreementDetails
      → Flow String AgreementDetails × S
  recover (next d, s) other = (next d, s)
  recover (failed message, s) other = (other, s)
  recover (threw, s) other = (other, s)

  unfoldable pub details_on_chain :
      AgreementMetadata → ParticipantRole → Option String → String → Run S String AgreementDetails
  unfolding recover
  details_on_chain metadata role none address s = (
    next (record {
      metadata = metadata;
      role = role;
      chain = none;
      timeline = [];
      reconciliation = none;
      actions = [];
    }),
    s,
  )
  details_on_chain metadata role (some escrow) address s =
      recover (reconciled_details metadata role address s)
        (snapshot_details e services metadata role escrow address)

  unfoldable pub details_for : AgreementMetadata → String → Run S String AgreementDetails
  details_for metadata address = do
    role ← lift (role_for e metadata address)
    details_on_chain metadata role (truthy metadata.escrow_address) address

  unfoldable pub details : String → String → Run S String AgreementDetails
  details id address_input s =
      (do
        address ← lift (or_throw (e.get_address address_input))
        stored ← lift (or_fail (services.get_agreement_by_id id s) "Agreement not found")
        details_for (metadata_for_participant e stored) address)
        s
