-- ===== src/Creation/Service.antt =====
-- `AgreementCreationService` of backend/src/agreements/agreement-service.ts, over the repository in
-- memory. `commit` is any function of a draft and its policy's commitment, as
-- `compute_agreement_commitment` of Creation/Commitment is; the deployer answers in any way, `none`
-- where it throws. Dates are the times at which the calls are made.
pub mod Deployed
pub mod Prepared
use veyronis.Prelude.{
  ℕ, String, ◌≡◌, Bool, true, false, not, Option, none, some, List, if◌then◌else◌, is_some,
}
use veyronis.Prelude.Flow
use veyronis.Prelude.Flow.{Flow, next, failed, threw}
use veyronis.Prelude.Flow.Run.{Run, lift, require, ◌>>=◌, ◌>>◌}
use veyronis.Prelude.Text.{to_lower_case, truthy}
use veyronis.Ethers.{Ethers}
use veyronis.Shared.Policy.{EvidencePolicy}
use veyronis.Shared.Agreement.{AgreementDraft, AgreementMetadata, DeploymentStatus}
use veyronis.Shared.Agreement.Draft.{validate_agreement_draft}
use veyronis.Attestcoin.Commitment.{compute_evidence_policy_commitment}
use veyronis.Creation.Preparation.{prepared_agreement}
use veyronis.Creation.{
  Agreements, DeploymentUpdate, create_agreement, get_agreement_by_id, update_deployment_status,
}

pub record Deployment : Type 0 where
  pub escrow_address : String
  pub transaction_hash : String
  pub block_number : Option String

abbrev pub is_awaiting : DeploymentStatus → Bool
is_awaiting DeploymentStatus.awaiting_confirmation = true
is_awaiting _ = false

-- An update of the status alone.
abbrev pub status_update : DeploymentStatus → DeploymentUpdate
status_update status = record {
  status = status;
  escrow_address = none;
  transaction_hash = none;
  block_number = none;
  error = none;
}

abbrev pub deployed_update : Deployment → DeploymentUpdate
deployed_update d = record {
  status = DeploymentStatus.deployed;
  escrow_address = some d.escrow_address;
  transaction_hash = some d.transaction_hash;
  block_number = truthy d.block_number;
  error = none;
}

abbrev pub failed_update : DeploymentUpdate
failed_update = record (status_update DeploymentStatus.failed) {
  error = some "Escrow deployment failed";
}

-- The repository's update as a step; `none` is its error.
updated : Option Agreements → Run Agreements String (Unit {0})
updated none s = (failed "Agreement metadata not found", s)
updated (some s') s = (next tt, s')

update : String → DeploymentUpdate → ℕ → Run Agreements String (Unit {0})
unfolding updated
update id u now s = updated (update_deployment_status id u now s) s

read : String → String → Run Agreements String AgreementMetadata
read message id s = (Flow.or_fail (get_agreement_by_id id s) message, s)

-- The update at the end of the `try`; where it throws, the one of the `catch` follows.
finished : String → ℕ → Option Agreements → Run Agreements String (Unit {0})
unfolding update
finished id now none s = update id failed_update now s
finished id now (some s') s = (next tt, s')

after_deploy : String → ℕ → Option Deployment → Run Agreements String (Unit {0})
unfolding update finished
after_deploy id now none s = update id failed_update now s
after_deploy id now (some d) s =
    finished id now (update_deployment_status id (deployed_update d) now s) s

unfoldable pub confirm_and_deploy :
    (AgreementMetadata → Option Deployment) → String → ℕ → Run Agreements String AgreementMetadata
unfolding update read after_deploy
confirm_and_deploy deploy id now = do
  agreement ← read "Agreement metadata not found" id
  require (is_awaiting agreement.deployment_status) "Agreement is not awaiting confirmation"
  update id (status_update DeploymentStatus.deploying) now
  after_deploy id now (deploy agreement)
  read "Agreement metadata disappeared after deployment" id

created : Option Agreements → AgreementMetadata → Run Agreements String AgreementMetadata
created none agreement s = (failed "Agreement metadata already exists", s)
created (some s') agreement s = (next agreement, s')

create : AgreementMetadata → Run Agreements String AgreementMetadata
unfolding created
create agreement s = created (create_agreement agreement s) agreement s

-- `prepare`, which returns the agreement that it has stored.
unfoldable pub prepare :
    Ethers
    → (String → Bool)
    → (AgreementDraft → String → Option String)
    → ℕ
    → AgreementDraft
    → Run Agreements String AgreementMetadata
unfolding create created
prepare e uuid commit now input = do
  agreement ← lift (prepared_agreement e uuid commit now input)
  create agreement
