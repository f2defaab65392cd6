-- ===== src/Frontend/Funding/Conditions.antt =====
-- What the tests of frontend/app/escrow/escrow-funding.ts mean.
use veyronis.Prelude.{ℕ, String, ◌≡◌, refl, true, Option, none, some, arith, and-eq-true, ◌==◌}
use veyronis.Prelude.Text.{to_lower_case, truthy}
use veyronis.Prelude.Flow.{next}
use veyronis.Shared.Chain.{AgreementChainSnapshot}
use veyronis.Shared.Escrow.{
  EscrowState, state_code, awaiting_payment, awaiting_delivery, ParticipantRole, buyer, seller,
  arbitrator, is_buyer,
}
use veyronis.Frontend.Funding.{
  FundingDetails, FundingState, is_funding_wallet, is_wallet_of, check_funding_state,
  chain_is_funded, is_reconciled,
}
use text.Mathlib.TextEquality.{eq_iff}
use text.Mathlib.Text as Text

-- The wallet is shown the agreement as its buyer, and has the buyer's address in any case of the
-- letters.
abbrev pub IsBuyersWallet : String → FundingDetails → AgreementChainSnapshot → Type 0
IsBuyersWallet address details chain =
    (details.role ≡ buyer) × (to_lower_case address ≡ to_lower_case chain.buyer)

-- The contract awaits this amount and has no deposit.
abbrev pub AwaitsDeposit : FundingState → ℕ → Type 0
AwaitsDeposit s amount = (s.state ≡ 0) × (s.required_amount ≡ amount) × (s.deposited_amount ≡ 0)

-- The backend's details have the deposit that the snapshot required.
abbrev pub HasDeposit : AgreementChainSnapshot → Option FundingDetails → Type 0
HasDeposit chain backend =
    (d : FundingDetails) × (c : AgreementChainSnapshot) × (backend ≡ some d)
    × (d.chain ≡ some c)
    × (c.state ≡ awaiting_delivery)
    × (c.deposited_amount ≡ chain.required_amount)

is_buyer-eq : (role : ParticipantRole) → is_buyer role ≡ true → role ≡ buyer
is_buyer-eq buyer h = refl
is_buyer-eq seller h = cc
is_buyer-eq arbitrator h = cc

is_wallet_of-truthy :
    (owner address : String)
    → is_wallet_of owner (truthy (some address)) ≡ true
    → to_lower_case address ≡ to_lower_case owner
unfolding is_wallet_of
is_wallet_of-truthy owner String.[] h = cc
is_wallet_of-truthy owner (String.◌∷◌ c s) h =
    (eq_iff (to_lower_case (String.◌∷◌ c s)) (to_lower_case owner)).0 h

pub is_funding_wallet-IsBuyersWallet :
    (address : String) (details : FundingDetails) (chain : AgreementChainSnapshot)
    → is_funding_wallet (some address) details chain ≡ true
    → IsBuyersWallet address details chain
unfolding is_funding_wallet
is_funding_wallet-IsBuyersWallet address details chain h =
    let (role, wallet) =
      and-eq-true (is_buyer details.role) (is_wallet_of chain.buyer (truthy (some address))) h in
    (is_buyer-eq details.role role, is_wallet_of-truthy chain.buyer address wallet)

pub check_funding_state-AwaitsDeposit :
    (s : FundingState) (amount : ℕ)
    → check_funding_state s amount ≡ next tt
    → AwaitsDeposit s amount
unfolding check_funding_state
check_funding_state-AwaitsDeposit s amount h = ground arith

pub awaits_payment-eq :
    (s : EscrowState) → (state_code s == state_code awaiting_payment) ≡ true → s ≡ awaiting_payment
awaits_payment-eq s h = ground arith

awaits_delivery-eq :
    (s : EscrowState)
    → (state_code s == state_code awaiting_delivery) ≡ true
    → s ≡ awaiting_delivery
awaits_delivery-eq s h = ground arith

chain_is_funded-eqs :
    (chain : AgreementChainSnapshot) (o : Option AgreementChainSnapshot)
    → chain_is_funded chain o ≡ true
    → (c : AgreementChainSnapshot) × (o ≡ some c)
      × (c.state ≡ awaiting_delivery)
      × (c.deposited_amount ≡ chain.required_amount)
chain_is_funded-eqs chain none h = cc
chain_is_funded-eqs chain (some c) h =
    let (state, amount) =
      and-eq-true (state_code c.state == state_code awaiting_delivery)
        (Text.◌==◌ c.deposited_amount chain.required_amount) h in
    (
      c,
      refl,
      awaits_delivery-eq c.state state,
      (eq_iff c.deposited_amount chain.required_amount).0 amount,
    )

pub is_reconciled-HasDeposit :
    (chain : AgreementChainSnapshot) (backend : Option FundingDetails)
    → is_reconciled chain backend ≡ true
    → HasDeposit chain backend
is_reconciled-HasDeposit chain none h = cc
is_reconciled-HasDeposit chain (some d) h =
    let (c, there, state, amount) = chain_is_funded-eqs chain d.chain h in
    (d, c, refl, there, state, amount)
