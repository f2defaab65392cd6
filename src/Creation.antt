-- ===== src/Creation.antt =====
-- The creation of agreements in the backend: their repository in memory
-- (backend/src/agreements/agreement-repository.ts), a list of the values of its map in the order
-- of their first insertion.
pub mod Preparation
pub mod Commitment
pub mod Service
pub mod Examples
use veyronis.Prelude.{
  ℕ, String, ◌≡◌, Bool, true, false, not, ◌&&◌, ◌||◌, Option, none, some, List, [], ◌∷◌,
  if◌then◌else◌, is_some, find, filter, any,
}
use veyronis.Prelude.Text.{to_lower_case}
use veyronis.Shared.Agreement.{AgreementMetadata, DeploymentStatus}
use text.Mathlib.Text.{◌==◌}

abbrev pub Agreements : Type 0
Agreements = List AgreementMetadata

-- `map.set(a.id, a)`.
unfoldable pub put : AgreementMetadata → Agreements → Agreements
put a [] = a ∷ []
put a (b ∷ store) = let rest = put a store in if b.id == a.id then a ∷ store else b ∷ rest

abbrev pub has_id : String → AgreementMetadata → Bool
has_id id a = a.id == id

unfoldable pub get_agreement_by_id : String → Agreements → Option AgreementMetadata
get_agreement_by_id id store = find (has_id id) store

-- `none` is the error "Agreement metadata already exists".
unfoldable pub create_agreement : AgreementMetadata → Agreements → Option Agreements
create_agreement a store =
    if is_some (get_agreement_by_id a.id store) then none else some (put a store)

lower_is : String → Option String → Bool
lower_is address none = false
lower_is address (some a) = to_lower_case a == to_lower_case address

unfoldable pub get_agreement_by_escrow_address : String → Agreements → Option AgreementMetadata
unfolding lower_is
get_agreement_by_escrow_address address store = find (λ a. lower_is address a.escrow_address) store

pub record DeploymentUpdate : Type 0 where
  pub status : DeploymentStatus
  pub escrow_address : Option String
  pub transaction_hash : Option String
  pub block_number : Option String
  pub error : Option String

-- `update.x ?? current.x`.
abbrev pub or_current : Option String → Option String → Option String
or_current none current = current
or_current (some a) current = some a

unfoldable pub apply_deployment : AgreementMetadata → DeploymentUpdate → ℕ → AgreementMetadata
apply_deployment a u now = record a {
  deployment_status = u.status;
  escrow_address = or_current u.escrow_address a.escrow_address;
  deployment_transaction_hash = or_current u.transaction_hash a.deployment_transaction_hash;
  deployment_block_number = or_current u.block_number a.deployment_block_number;
  deployment_error = u.error;
  updated_at = now;
}

-- `none` is the error "Agreement metadata not found".
unfoldable pub update_found :
    DeploymentUpdate → ℕ → Agreements → Option AgreementMetadata → Option Agreements
update_found u now store none = none
update_found u now store (some a) = some (put (apply_deployment a u now) store)

unfoldable pub update_deployment_status :
    String → DeploymentUpdate → ℕ → Agreements → Option Agreements
update_deployment_status id u now store = update_found u now store (get_agreement_by_id id store)

unfoldable pub list_agreements_for_participant : String → Agreements → Agreements
unfolding to_lower_case
list_agreements_for_participant address store =
    filter
      (λ a.
        any (λ participant. to_lower_case participant == to_lower_case address)
          (a.buyer ∷ a.seller ∷ a.arbitrator ∷ []))
      store

abbrev pub is_deployed : DeploymentStatus → Bool
is_deployed DeploymentStatus.deployed = true
is_deployed _ = false

unfoldable pub list_deployed_agreements : Agreements → Agreements
list_deployed_agreements store =
    filter (λ a. is_deployed a.deployment_status && is_some a.escrow_address) store
