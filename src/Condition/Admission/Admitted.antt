-- ===== src/Condition/Admission/Admitted.antt =====
-- What the checks of backend/src/agreements/agreement-condition-service.ts let through.
use veyronis.Prelude.{String, ◌≡◌, true, Option, none, some, arith, is_some, ◌&&◌, subst, ap, ◌∙◌}
use veyronis.Prelude.Flow.{next, bind-eq-next, require-eq-next, or_throw-eq-next, or_fail-eq-next}
use veyronis.Prelude.Text.{to_lower_case, truthy}
use veyronis.Ethers.{Ethers}
use veyronis.Shared.Policy.{
  bytes32_schema, ExternalBlockchainCondition, external_blockchain_condition_from_policy,
}
use veyronis.Shared.Agreement.{DeploymentStatus, AgreementMetadata}
use veyronis.Condition.{AgreementConditionVerification}
use veyronis.Condition.Admission.Roles.{is_deployed-eq}
use veyronis.Condition.Admission.{
  admit, require_agreement, require_seller, require_condition, parse_hash, require_unverified,
  role_for, is_deployed,
}
use text.Mathlib.TextEquality.{eq_iff}

-- An attempt that may be started: by the seller of a deployed agreement that has an external
-- condition, with a transaction hash that no other agreement has had verified.
pub record IsAdmitted (e : Ethers) (agreement_id : String) (stored : Option AgreementMetadata)
    (find_verified : String → Option AgreementConditionVerification) (wallet input : String)
    (m : AgreementMetadata) (hash : String) : Type 0 where
  pub agreement : stored ≡ some m
  pub deployed : m.deployment_status ≡ DeploymentStatus.deployed
  pub on_chain : is_some (truthy m.escrow_address) ≡ true
  pub seller : (a : String) × (e.get_address wallet ≡ some a) × (e.get_address m.seller ≡ some a)
  pub condition :
      (c : ExternalBlockchainCondition) × (external_blockchain_condition_from_policy e m.policy
        ≡ some c)
  pub is_hash : bytes32_schema input ≡ true
  pub lower : hash ≡ to_lower_case input
  pub unverified :
      (v : AgreementConditionVerification)
      → find_verified hash ≡ some v
      → v.agreement_id ≡ agreement_id

module _ (e : Ethers) where
  require_agreement-next :
      (stored : Option AgreementMetadata) (wallet : String) (m : AgreementMetadata)
      → require_agreement e stored wallet ≡ next m
      → (stored ≡ some m)
        × (is_deployed m.deployment_status ≡ true)
        × (is_some (truthy m.escrow_address) ≡ true)
  unfolding require_agreement
  require_agreement-next stored wallet m h =
      let (n, found, h1) = or_fail-eq-next stored _ _ h in
      let (live, h2) =
        require-eq-next (is_deployed n.deployment_status && is_some (truthy n.escrow_address)) _ _
          h1 in
      let (role, is_role, h3) = bind-eq-next (role_for e n wallet) _ h2 in
      let (participant, h4) = require-eq-next (is_some role) _ _ h3 in
      let same : n ≡ m = ground arith in
      subst
        (λ k.
          (stored ≡ some k)
          × (is_deployed k.deployment_status ≡ true)
          × (is_some (truthy k.escrow_address) ≡ true))
        same (found, ground arith, ground arith)

  require_seller-next :
      (m : AgreementMetadata) (wallet : String)
      → require_seller e m wallet ≡ next tt
      → (a : String) × (e.get_address wallet ≡ some a) × (e.get_address m.seller ≡ some a)
  unfolding require_seller
  require_seller-next m wallet h =
      let (w, ew, h1) = or_throw-eq-next (e.get_address wallet) _ h in
      let (s, es, h2) = or_throw-eq-next (e.get_address m.seller) _ h1 in
      let same : s ≡ w = ground (arith, eq_iff w s) in (w, ew, es ∙ ap some same)

  require_unverified-next :
      (agreement_id : String) (o : Option AgreementConditionVerification)
      (v : AgreementConditionVerification)
      → require_unverified e agreement_id o ≡ next tt
      → o ≡ some v
      → v.agreement_id ≡ agreement_id
  unfolding require_unverified
  require_unverified-next agreement_id none v h k = cc
  require_unverified-next agreement_id (some w) v h k =
      let same : w ≡ v = ground arith in
      subst (λ u. u.agreement_id ≡ agreement_id) same
        (ground (arith, eq_iff w.agreement_id agreement_id))

  parse_hash-next :
      (input hash : String)
      → parse_hash e input ≡ next hash
      → (bytes32_schema input ≡ true) × (hash ≡ to_lower_case input)
  unfolding parse_hash
  parse_hash-next input hash h = ground arith

  -- An attempt passes the checks only when it may be started.
  pub admit-IsAdmitted :
      (agreement_id : String) (stored : Option AgreementMetadata)
      (find_verified : String → Option AgreementConditionVerification) (wallet input : String)
      (m : AgreementMetadata) (hash : String)
      → admit e agreement_id stored find_verified wallet input ≡ next (m, hash)
      → IsAdmitted e agreement_id stored find_verified wallet input m hash
  unfolding admit require_condition
  admit-IsAdmitted agreement_id stored find_verified wallet input m hash h =
      let (n, found, h1) = bind-eq-next (require_agreement e stored wallet) _ h in
      let (u, is_seller, h2) = bind-eq-next (require_seller e n wallet) _ h1 in
      let (c, condition, h3) =
        or_fail-eq-next (external_blockchain_condition_from_policy e n.policy) _ _ h2 in
      let (k, parsed, h4) = bind-eq-next (parse_hash e input) _ h3 in
      let (w, unverified, h5) =
        bind-eq-next (require_unverified e agreement_id (find_verified k)) _ h4 in
      let (same_m, same_k) : (n ≡ m) × (k ≡ hash) = ground arith in
      let (agreement, deployed, on_chain) = require_agreement-next stored wallet n found in
      let (is_hash, lower) = parse_hash-next input k parsed in
      rw (← same_m, ← same_k)
        (record {
          agreement = agreement;
          deployed = is_deployed-eq n.deployment_status deployed;
          on_chain = on_chain;
          seller = require_seller-next n wallet is_seller;
          condition = (c, condition);
          is_hash = is_hash;
          lower = lower;
          unverified = λ v e. require_unverified-next agreement_id (find_verified k) v unverified e;
        })
