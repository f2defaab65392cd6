-- ===== src/Condition/Admission/Roles.antt =====
-- What backend/src/agreements/agreement-condition-service.ts means by the buyer and by a deployed
-- agreement.
use veyronis.Prelude.{String, ◌≡◌, ap, ◌∙◌, true, some, arith, ◌||◌, if◌then◌else◌}
use veyronis.Prelude.Flow.{next, or_throw-eq-next}
use veyronis.Ethers.{Ethers}
use veyronis.Shared.Agreement.{AgreementMetadata, DeploymentStatus}
use veyronis.Shared.Escrow.{buyer}
use veyronis.Condition.Admission.{is_deployed, role_for}
use text.Mathlib.Text.{◌==◌}
use text.Mathlib.TextEquality.{eq_iff}

pub is_deployed-eq :
    (status : DeploymentStatus) → is_deployed status ≡ true → status ≡ DeploymentStatus.deployed
is_deployed-eq status h = ground arith

module _ (e : Ethers) where
  -- The wallet and the agreement's buyer have one address.
  abbrev pub IsBuyer : AgreementMetadata → String → Type 0
  IsBuyer m wallet =
      (a : String) × (e.get_address wallet ≡ some a) × (e.get_address m.buyer ≡ some a)

  pub role_for-IsBuyer :
      (m : AgreementMetadata) (wallet : String)
      → role_for e m wallet ≡ next (some buyer)
      → IsBuyer m wallet
  unfolding role_for
  role_for-IsBuyer m wallet h =
      let (a, checked, h1) = or_throw-eq-next (e.get_address wallet) _ h in
      let (b, of_buyer, h2) = or_throw-eq-next (e.get_address m.buyer) _ h1 in
      let (s, of_seller, h3) =
        or_throw-eq-next (if b == a then some "" else e.get_address m.seller) _ h2 in
      let (r, of_arbitrator, h4) =
        or_throw-eq-next (if b == a || s == a then some "" else e.get_address m.arbitrator) _ h3 in
      let is_buyer : (b == a) ≡ true = ground arith in
      (a, checked, of_buyer ∙ ap some ((eq_iff b a).0 is_buyer))
