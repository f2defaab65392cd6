-- ===== src/Contract/Examples.antt =====
-- The contract over a deposit and its release, and the actions that are offered on the way.
use veyronis.Prelude.{arith, ◌≡◌, ◌↔◌, refl, true, false, some}
use veyronis.Shared.Escrow.{
  awaiting_delivery, complete, buyer, confirm_delivery, deposit, can_withdraw_escrow_funds,
}
use veyronis.Shared.Agreement.{application_work_evidence, blockchain_condition_only}
use veyronis.Contract.{
  Terms, Escrow, Method, created, call, guards, effect, credit, constructor_accepts, write,
}
use veyronis.Contract.Funds.{IsReachable, start, after, IsSolvent, IsReachable-IsSolvent}
use veyronis.Dashboard.{actions_for}
use veyronis.Dashboard.Actions.{includes, offered, offered_iff, offered-guards}

abbrev terms : Terms
terms = record {
  buyer = 1;
  seller = 2;
  arbitrator = 3;
  evidence_registry = 4;
  agreement_commitment = 5;
  evidence_policy_commitment = 6;
  required_amount = 100;
  direct_condition_settlement = false;
}

abbrev funded : Escrow
funded = record created { state = awaiting_delivery; deposited_amount = 100; balance = 100 }

abbrev released : Escrow
released = record funded {
  state = complete;
  deposited_amount = 0;
  withdrawals = write 2 100 created.withdrawals;
}

terms_accepted : constructor_accepts terms ≡ true
unfolding constructor_accepts
terms_accepted = refl

pays : call terms 1 (Method.deposit 100) created ≡ some funded
unfolding call guards effect
pays = refl

releases : call terms 1 Method.confirm_delivery funded ≡ some released
unfolding call guards effect credit
releases = refl

funded-IsReachable : IsReachable terms funded
funded-IsReachable = after 1 (Method.deposit 100) start pays

IsReachable-IsSolvent_example : IsSolvent terms released
IsReachable-IsSolvent_example =
    IsReachable-IsSolvent terms terms_accepted
      (after 1 Method.confirm_delivery funded-IsReachable releases)

funded-IsSolvent : IsSolvent terms funded
funded-IsSolvent = IsReachable-IsSolvent terms terms_accepted funded-IsReachable

offered_iff_example :
    (includes (offered terms funded buyer application_work_evidence) confirm_delivery ≡ true)
    ↔ (guards terms 1 Method.confirm_delivery funded ≡ true)
offered_iff_example =
    offered_iff terms funded buyer application_work_evidence 7 confirm_delivery
      (λ h. ground arith, λ h. ground arith, λ h. ground arith) refl refl (λ h. ground arith)
      funded-IsSolvent

pays_offered : includes (offered terms created buyer blockchain_condition_only) deposit ≡ true
unfolding actions_for can_withdraw_escrow_funds
pays_offered = refl

offered-guards_example : guards terms 1 (Method.deposit 100) created ≡ true
offered-guards_example = offered-guards terms created buyer 0 deposit pays_offered
