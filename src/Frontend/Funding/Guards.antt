-- ===== src/Frontend/Funding/Guards.antt =====
-- The checks of frontend/app/escrow/escrow-funding.ts beside the guards of
-- contracts/src/VeyronisEscrow.sol.
use veyronis.Prelude.{ℕ, ◌≡◌, ◌↔◌, true, arith}
use veyronis.Prelude.Flow.{next}
use veyronis.Shared.Escrow.{state_code}
use veyronis.Contract.{Terms, Escrow, Method, guards}
use veyronis.Contract.Funds.{IsSolvent}
use veyronis.Frontend.Funding.{FundingState, check_funding_state}

-- What `readFundingState` answers on a contract.
abbrev pub view : Terms → Escrow → FundingState
view t s = record {
  state = state_code s.state;
  deposited_amount = s.deposited_amount;
  required_amount = t.required_amount;
}

-- On a contract in a solvent state, the frontend goes on to deposit an amount exactly when the
-- contract accepts this deposit from its buyer.
pub check_funding_state_iff :
    (t : Terms) (s : Escrow) (amount : ℕ)
    → IsSolvent t s
    → (check_funding_state (view t s) amount ≡ next tt)
      ↔ (guards t t.buyer (Method.deposit amount) s ≡ true)
unfolding check_funding_state guards
check_funding_state_iff t s amount solvent = ground (arith, solvent.held)
