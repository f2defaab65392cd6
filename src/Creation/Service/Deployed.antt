-- ===== src/Creation/Service/Deployed.antt =====
-- The deployment of an agreement by backend/src/agreements/agreement-service.ts.
use veyronis.Prelude.{
  ℕ, String, ◌≡◌, refl, ◌∙◌, true, false, Option, none, some, [], ◌∷◌, arith, find, find-eq-some,
}
use veyronis.Prelude.Flow.{next, failed}
use veyronis.Prelude.Flow.Run
use veyronis.Prelude.Flow.Run.{Run, lift-eq-next}
use veyronis.Prelude.Text.{truthy, IsWrittenOver, nothing_given, empty_given, given}
use veyronis.Shared.Agreement.{AgreementMetadata, DeploymentStatus}
use veyronis.Creation.{
  Agreements, DeploymentUpdate, put, get_agreement_by_id, has_id, update_deployment_status,
  update_found, apply_deployment, or_current,
}
use veyronis.Creation.Service.{
  Deployment, is_awaiting, status_update, deployed_update, failed_update, update, updated, finished,
  read, after_deploy, confirm_and_deploy,
}
use text.Mathlib.TextEquality.{eq_iff}

get-id :
    (id : String) (s : Agreements) (a : AgreementMetadata)
    → get_agreement_by_id id s ≡ some a
    → a.id ≡ id
unfolding get_agreement_by_id
get-id id s a h = (eq_iff a.id id).0 (find-eq-some (has_id id) s h).1

apply-id :
    (a : AgreementMetadata) (u : DeploymentUpdate) (now : ℕ) → (apply_deployment a u now).id ≡ a.id
unfolding apply_deployment
apply-id a u now = refl

-- What was put is found under its id.
pub get-put :
    (a : AgreementMetadata) (id : String) (s : Agreements)
    → a.id ≡ id
    → get_agreement_by_id id (put a s) ≡ some a
unfolding get_agreement_by_id put find
get-put a id [] same = ground (arith, eq_iff a.id id)
get-put a id (b ∷ s) same =
    let rest = get-put a id s same in
    ground (arith, eq_iff a.id id, eq_iff b.id a.id, eq_iff b.id id)

-- An update of an agreement that is there is what is read next.
update-get :
    (id : String) (u : DeploymentUpdate) (now : ℕ) (s : Agreements) (a : AgreementMetadata)
    → get_agreement_by_id id s ≡ some a
    → (s' : Agreements) × (update_deployment_status id u now s ≡ some s')
      × (get_agreement_by_id id s' ≡ some (apply_deployment a u now))
unfolding update_deployment_status update_found
update-get id u now s a h = (
  put (apply_deployment a u now) s,
  rw h refl,
  get-put (apply_deployment a u now) id s (apply-id a u now ∙ get-id id s a h),
)

abbrev final_update : Option Deployment → DeploymentUpdate
final_update none = failed_update
final_update (some d) = deployed_update d

-- The agreement after the deployer's answer.
abbrev pub outcome : AgreementMetadata → Option Deployment → ℕ → AgreementMetadata
outcome a o now =
    apply_deployment (apply_deployment a (status_update DeploymentStatus.deploying) now)
      (final_update o) now

after_deploy-get :
    (id : String) (now : ℕ) (o : Option Deployment) (s : Agreements) (a : AgreementMetadata)
    → get_agreement_by_id id s ≡ some a
    → (s' : Agreements) × (after_deploy id now o s ≡ (next tt, s'))
      × (get_agreement_by_id id s' ≡ some (apply_deployment a (final_update o) now))
unfolding after_deploy update updated finished
after_deploy-get id now none s a there =
    let (s', updated, there') = update-get id failed_update now s a there in
    (s', rw updated refl, there')
after_deploy-get id now (some d) s a there =
    let (s', updated, there') = update-get id (deployed_update d) now s a there in
    (s', rw updated refl, there')

confirm_and_deploy-final :
    (deploy : AgreementMetadata → Option Deployment) (id : String) (now : ℕ) (s : Agreements)
    (a : AgreementMetadata)
    → get_agreement_by_id id s ≡ some a
    → is_awaiting a.deployment_status ≡ true
    → (s' : Agreements) × (confirm_and_deploy deploy id now s
        ≡ (next (outcome a (deploy a) now), s'))
      × (get_agreement_by_id id s' ≡ some (outcome a (deploy a) now))
unfolding confirm_and_deploy update updated read Run.◌>>=◌
confirm_and_deploy-final deploy id now s a there awaiting =
    let (s1, updated, there1) =
      update-get id (status_update DeploymentStatus.deploying) now s a there in
    let (s2, answered, there2) =
      after_deploy-get id now (deploy a) s1
        (apply_deployment a (status_update DeploymentStatus.deploying) now) there1 in
    (s2, rw (there, awaiting, updated, answered, there2) refl, there2)

-- The agreement `a` after its deployment succeeded or failed: only the fields of the deployment
-- and the time of the update are others.
pub data IsAnswered (a : AgreementMetadata) (now : ℕ)
    : Option Deployment → AgreementMetadata → Type 0 where
  not_deployed : IsAnswered a now none (record a {
    deployment_status = DeploymentStatus.failed;
    deployment_error = some "Escrow deployment failed";
    updated_at = now;
  })
  is_deployed :
      (d : Deployment) (block : Option String)
      → IsWrittenOver d.block_number a.deployment_block_number block
      → IsAnswered a now (some d) (record a {
        deployment_status = DeploymentStatus.deployed;
        escrow_address = some d.escrow_address;
        deployment_transaction_hash = some d.transaction_hash;
        deployment_block_number = block;
        deployment_error = none;
        updated_at = now;
      })

block-IsWrittenOver : (o old : Option String) → IsWrittenOver o old (or_current (truthy o) old)
block-IsWrittenOver none old = nothing_given
block-IsWrittenOver (some String.[]) old = empty_given
block-IsWrittenOver (some (String.◌∷◌ c s)) old = given c s

outcome-IsAnswered :
    (a : AgreementMetadata) (o : Option Deployment) (now : ℕ) → IsAnswered a now o (outcome a o now)
unfolding apply_deployment
outcome-IsAnswered a none now = not_deployed
outcome-IsAnswered a (some d) now =
    is_deployed d _ (block-IsWrittenOver d.block_number a.deployment_block_number)

-- The confirmation of a stored agreement that awaits it always returns an agreement, and stores
-- it: the one that was stored, deployed with the address, the transaction and, if there is one,
-- the block that the deployer answered, or failed with an error where it threw.
pub confirm_and_deploy-outcome :
    (deploy : AgreementMetadata → Option Deployment) (id : String) (now : ℕ) (s : Agreements)
    (a : AgreementMetadata)
    → get_agreement_by_id id s ≡ some a
    → is_awaiting a.deployment_status ≡ true
    → (b : AgreementMetadata) × (s' : Agreements) × (confirm_and_deploy deploy id now s
        ≡ (next b, s'))
      × (get_agreement_by_id id s' ≡ some b)
      × IsAnswered a now (deploy a) b
confirm_and_deploy-outcome deploy id now s a there awaiting =
    let (s', ran, there') = confirm_and_deploy-final deploy id now s a there awaiting in
    (outcome a (deploy a) now, s', ran, there', outcome-IsAnswered a (deploy a) now)

outcome-awaiting :
    (a : AgreementMetadata) (o : Option Deployment) (now : ℕ)
    → is_awaiting (outcome a o now).deployment_status ≡ false
unfolding apply_deployment
outcome-awaiting a none now = refl
outcome-awaiting a (some d) now = refl

confirm_and_deploy-refused :
    (deploy : AgreementMetadata → Option Deployment) (id : String) (now : ℕ) (s : Agreements)
    (a : AgreementMetadata)
    → get_agreement_by_id id s ≡ some a
    → is_awaiting a.deployment_status ≡ false
    → confirm_and_deploy deploy id now s ≡ (failed "Agreement is not awaiting confirmation", s)
unfolding confirm_and_deploy read Run.◌>>=◌
confirm_and_deploy-refused deploy id now s a there refused = rw (there, refused) refl

-- A confirmation is taken once: after that of a stored agreement which awaited it, a second call
-- fails and leaves the store as it is, whatever the deployer answered and would answer.
pub confirm_and_deploy-once :
    (deploy : AgreementMetadata → Option Deployment) (id : String) (now later : ℕ) (s : Agreements)
    (a : AgreementMetadata)
    → get_agreement_by_id id s ≡ some a
    → is_awaiting a.deployment_status ≡ true
    → confirm_and_deploy deploy id later (confirm_and_deploy deploy id now s).1
      ≡ (failed "Agreement is not awaiting confirmation", (confirm_and_deploy deploy id now s).1)
confirm_and_deploy-once deploy id now later s a there awaiting =
    let (s', ran, there') = confirm_and_deploy-final deploy id now s a there awaiting in
    rw ran (
      confirm_and_deploy-refused deploy id later s' (outcome a (deploy a) now) there'
        (outcome-awaiting a (deploy a) now))
