-- ===== src/Condition/Repository.antt =====
-- `InMemoryAgreementConditionVerificationRepository` of
-- backend/src/agreements/agreement-condition-repository.ts. The map is a list of its values in the
-- order of their first insertion, which is the order of a JavaScript `Map`. Dates are
-- milliseconds, and both dates of a verification are dates.
pub mod Claims
pub mod Latest
pub mod Examples
use veyronis.Prelude.{
  ℕ, ◌-◌, ◌*◌, String, ◌≡◌, Bool, true, false, not, ◌&&◌, ◌||◌, Option, none, some, List, [], ◌∷◌,
  ◌++◌, leb, ltb, ◌==◌ as nat_eq, if◌then◌else◌, find, filter, any, map,
}
use veyronis.Prelude.Text.{to_lower_case}
use veyronis.Attestcoin.{VerifiedConditionFacts, VerificationFailureCode}
use veyronis.Shared.Chain.{
  AgreementConditionStatus, pending, verification_in_progress, verified, verification_failed,
}
use veyronis.Condition.{AgreementConditionVerification}
use text.Mathlib.Text.{◌==◌}

abbrev pub Store : Type 0
Store = List AgreementConditionVerification

-- `status === "verified"` and the like.
abbrev pub status_code : AgreementConditionStatus → ℕ
status_code pending = 0
status_code verification_in_progress = 1
status_code verified = 2
status_code verification_failed = 3

abbrev pub is_status : AgreementConditionStatus → AgreementConditionStatus → Bool
is_status expected s = nat_eq (status_code s) (status_code expected)

abbrev pub stale_timeout : ℕ
stale_timeout = 5 * 60 * 1000

-- `attempted - updated >= STALE_VERIFICATION_TIMEOUT_MS`; a difference below zero is not stale.
unfoldable pub is_stale_verification : (updated_at attempted_at : ℕ) → Bool
is_stale_verification updated_at attempted_at = leb stale_timeout (attempted_at - updated_at)

abbrev pub same_transaction : String → String → Bool
same_transaction a b = to_lower_case a == to_lower_case b

abbrev pub is_for : String → String → AgreementConditionVerification → Bool
is_for agreement_id hash v =
    v.agreement_id == agreement_id && same_transaction v.transaction_hash hash

unfoldable pub find_verification : String → String → Store → Option AgreementConditionVerification
find_verification agreement_id hash store = find (is_for agreement_id hash) store

unfoldable pub find_verified_transaction : String → Store → Option AgreementConditionVerification
find_verified_transaction hash store =
    find (λ v. is_status verified v.status && same_transaction v.transaction_hash hash) store

-- `map.set(value.id, value)`: in the place of the entry of this key, or at the end.
unfoldable pub set : AgreementConditionVerification → Store → Store
set v [] = v ∷ []
set v (w ∷ store) = let rest = set v store in if w.id == v.id then v ∷ store else w ∷ rest

unfoldable pub get : String → Store → Option AgreementConditionVerification
get id store = find (λ v. v.id == id) store

-- What the service asks to store.
pub record AgreementConditionVerificationRecord : Type 0 where
  pub id : String
  pub agreement_id : String
  pub submitter : String
  pub transaction_hash : String
  pub submitted_at : ℕ
  pub updated_at : ℕ

pub record AgreementConditionVerificationStart : Type 0 where
  pub verification : AgreementConditionVerification
  pub claimed : Bool

-- The fields that the destructuring leaves in `restartable` stay, `verifiedFacts` among them.
unfoldable pub restart : AgreementConditionVerification → ℕ → AgreementConditionVerification
restart existing updated_at = record existing {
  status = verification_in_progress;
  verified_claim_id = none;
  verified_amount = none;
  failure_code = none;
  failure_message = none;
  verified_at = none;
  updated_at = updated_at;
}

abbrev pub stored_of : AgreementConditionVerificationRecord → AgreementConditionVerification
stored_of r = record {
  id = r.id;
  agreement_id = r.agreement_id;
  submitter = r.submitter;
  transaction_hash = r.transaction_hash;
  status = verification_in_progress;
  verified_claim_id = none;
  verified_amount = none;
  verified_facts = none;
  failure_code = none;
  failure_message = none;
  submitted_at = r.submitted_at;
  verified_at = none;
  updated_at = r.updated_at;
}

-- Whether an attempt at a time leaves an existing verification as it is.
unfoldable pub keeps : AgreementConditionVerification → ℕ → Bool
unfolding is_stale_verification
keeps existing now =
    is_status verified existing.status
    || is_status verification_in_progress existing.status
      && not (is_stale_verification existing.updated_at now)

unfoldable pub start_existing :
    AgreementConditionVerification → ℕ → Store → AgreementConditionVerificationStart × Store
start_existing existing now store =
    if keeps existing now then (record { verification = existing; claimed = false }, store) else (
      record { verification = restart existing now; claimed = true },
      set (restart existing now) store,
    )

-- The rest of `startVerification`, on what `findVerification` found.
unfoldable pub start_found :
    AgreementConditionVerificationRecord
    → Store
    → Option AgreementConditionVerification
    → AgreementConditionVerificationStart × Store
start_found r store none =
    (record { verification = stored_of r; claimed = true }, set (stored_of r) store)
start_found r store (some existing) = start_existing existing r.updated_at store

unfoldable pub start_verification :
    AgreementConditionVerificationRecord → Store → AgreementConditionVerificationStart × Store
start_verification r store =
    start_found r store (find_verification r.agreement_id r.transaction_hash store)

pub record AgreementConditionVerificationUpdate : Type 0 where
  pub status : AgreementConditionStatus
  pub verified_claim_id : Option String
  pub verified_amount : Option String
  pub verified_facts : Option VerifiedConditionFacts
  pub failure_code : Option VerificationFailureCode
  pub failure_message : Option String
  pub verified_at : Option ℕ
  pub updated_at : ℕ

-- `...(update.x !== undefined ? { x: update.x } : {})`.
abbrev pub or_keep {ℓ} : {A : Type ℓ} → Option A → Option A → Option A
or_keep none old = old
or_keep (some a) old = some a

unfoldable pub apply_update :
    AgreementConditionVerification
    → AgreementConditionVerificationUpdate
    → AgreementConditionVerification
apply_update v u = record v {
  status = u.status;
  verified_claim_id = or_keep u.verified_claim_id v.verified_claim_id;
  verified_amount = or_keep u.verified_amount v.verified_amount;
  verified_facts = or_keep u.verified_facts v.verified_facts;
  failure_code = or_keep u.failure_code v.failure_code;
  failure_message = or_keep u.failure_message v.failure_message;
  verified_at = or_keep u.verified_at v.verified_at;
  updated_at = u.updated_at;
}

unfoldable pub update_found :
    AgreementConditionVerificationUpdate
    → Store
    → Option AgreementConditionVerification
    → Option AgreementConditionVerification × Store
update_found u store none = (none, store)
update_found u store (some v) = (some (apply_update v u), set (apply_update v u) store)

unfoldable pub update_verification :
    String
    → AgreementConditionVerificationUpdate
    → Store
    → Option AgreementConditionVerification × Store
update_verification id u store = update_found u store (get id store)

-- The first of the latest: the sort is stable and puts the latest first.
latest : Store → Option AgreementConditionVerification
latest [] = none
latest (v ∷ store) = elim (latest store) [
  | none ↦ some v
  | some w ↦ if ltb v.submitted_at w.submitted_at then some w else some v
]

unfoldable pub latest_verification : String → Store → Option AgreementConditionVerification
unfolding latest
latest_verification agreement_id store = latest (filter (λ v. v.agreement_id == agreement_id) store)
