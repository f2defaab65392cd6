-- ===== src/Contract/Funds.antt =====
-- The Ether of the escrow contract contracts/src/VeyronisEscrow.sol over any sequence of calls.
use veyronis.Prelude.{
  ℕ, ◌+◌, ◌-◌, ◌≡◌, refl, sym, ap, ◌∙◌, ◌≢◌, ◌⊎◌, inl, inr, Bool, true, false, some, arith,
  Bool-cases,
}
use veyronis.Shared.Escrow.{
  EscrowState, awaiting_payment, awaiting_delivery, refund_requested, disputed, complete, refunded,
  cancelled,
}
use veyronis.Contract.{
  Terms, Escrow, Method, Resolution, created, call, guards, effect, credit, resolve,
  constructor_accepts, write, in_state,
}

-- The Ether that a state keeps for the parties to decide on.
abbrev pub held_in : Terms → EscrowState → ℕ
held_in t awaiting_delivery = t.required_amount
held_in t refund_requested = t.required_amount
held_in t disputed = t.required_amount
held_in t _ = 0

abbrev pub is_complete : EscrowState → Bool
is_complete complete = true
is_complete _ = false

abbrev pub is_refunded : EscrowState → Bool
is_refunded refunded = true
is_refunded _ = false

-- What stays true of the contract's Ether.
pub record IsSolvent (t : Terms) (s : Escrow) : Type 0 where
  pub held : s.deposited_amount ≡ held_in t s.state
  pub accounted : s.balance ≡ s.deposited_amount + s.withdrawals t.buyer + s.withdrawals t.seller
  pub others : (a : ℕ) → a ≢ t.buyer → a ≢ t.seller → s.withdrawals a ≡ 0
  pub buyer_owed : is_refunded s.state ≡ false → s.withdrawals t.buyer ≡ 0
  pub seller_owed : is_complete s.state ≡ false → s.withdrawals t.seller ≡ 0

-- The states that calls lead to, from a new contract.
pub data IsReachable (t : Terms) : Escrow → Type 0 where
  start : IsReachable t created
  after :
      {s s' : Escrow} (sender : ℕ) (m : Method)
      → IsReachable t s
      → call t sender m s ≡ some s'
      → IsReachable t s'

created-IsSolvent : (t : Terms) → IsSolvent t created
created-IsSolvent t = record {
  held = refl;
  accounted = refl;
  others = λ a x y. refl;
  buyer_owed = λ k. refl;
  seller_owed = λ k. refl;
}

-- A state in which the parties can still decide has nothing credited.
in_state-eq : (expected s : EscrowState) → in_state expected s ≡ true → s ≡ expected
in_state-eq awaiting_payment s h = ground arith
in_state-eq awaiting_delivery s h = ground arith
in_state-eq refund_requested s h = ground arith
in_state-eq disputed s h = ground arith
in_state-eq complete s h = ground arith
in_state-eq refunded s h = ground arith
in_state-eq cancelled s h = ground arith

owed_none :
    (t : Terms) (from : EscrowState) (s : Escrow)
    → IsSolvent t s
    → s.state ≡ from
    → (is_refunded from ≡ false) × (is_complete from ≡ false)
    → (s.withdrawals t.buyer ≡ 0) × (s.withdrawals t.seller ≡ 0)
owed_none t from s solvent e (r, c) = (solvent.buyer_owed (rw e r), solvent.seller_owed (rw e c))

-- A call that moves no Ether, between states that hold the same.
still-IsSolvent :
    (t : Terms) (from to : EscrowState) (s s' : Escrow)
    → IsSolvent t s
    → (s.state ≡ from) × (s'.state ≡ to)
    → (s'.deposited_amount ≡ s.deposited_amount)
      × (s'.withdrawals ≡ s.withdrawals)
      × (s'.balance ≡ s.balance)
    → (is_refunded from ≡ false) × (is_complete from ≡ false)
    → held_in t to ≡ held_in t from
    → IsSolvent t s'
still-IsSolvent t from to s s' solvent (e, e') (d, w, b) undecided same =
    let (buyer, seller) = owed_none t from s solvent e undecided in
    record {
      held = d ∙ solvent.held ∙ ap (held_in t) e ∙ sym same ∙ sym (ap (held_in t) e');
      accounted = ground arith;
      others = λ a x y. ground (arith, solvent.others a);
      buyer_owed = λ k. ground arith;
      seller_owed = λ k. ground arith;
    }

-- Before a decision nothing is credited to any account.
uncredited :
    (t : Terms) (from : EscrowState) (s : Escrow)
    → IsSolvent t s
    → s.state ≡ from
    → (is_refunded from ≡ false) × (is_complete from ≡ false)
    → (s.balance ≡ s.deposited_amount) × ((a : ℕ) → s.withdrawals a ≡ 0)
uncredited t from s solvent e undecided =
    let (buyer, seller) = owed_none t from s solvent e undecided in
    (ground (arith, solvent.accounted), λ a. ground (arith, solvent.others a))

-- A credit to a party, from a state in which nothing was credited.
credit-IsSolvent :
    (t : Terms) (recipient : ℕ) (s s' : Escrow)
    → t.buyer ≢ t.seller
    → ((recipient ≡ t.buyer) × (s.state ≡ refunded))
      ⊎ ((recipient ≡ t.seller) × (s.state ≡ complete))
    → s.balance ≡ s.deposited_amount
    → ((a : ℕ) → s.withdrawals a ≡ 0)
    → credit recipient s ≡ some s'
    → IsSolvent t s'
unfolding credit
credit-IsSolvent t recipient s s' distinct party balance zero h =
    let (d, state) : (s'.deposited_amount ≡ 0) × (s'.state ≡ s.state) = ground arith in
    record {
      held = rw state (ground arith);
      accounted = ground (arith, zero t.buyer, zero t.seller, zero recipient);
      others = λ a x y. ground (arith, zero a);
      buyer_owed = λ k. ground (arith, zero t.buyer, state);
      seller_owed = λ k. ground (arith, zero t.seller, state);
    }

deposit-IsSolvent :
    (t : Terms) (value : ℕ) (s s' : Escrow)
    → IsSolvent t s
    → s.state ≡ awaiting_payment
    → value ≡ t.required_amount
    → record s { deposited_amount = value; state = awaiting_delivery; balance = s.balance + value }
      ≡ s'
    → IsSolvent t s'
deposit-IsSolvent t value s s' solvent e paid h =
    let (balance, zero) = uncredited t awaiting_payment s solvent e (refl, refl) in
    let none_held : s.deposited_amount ≡ 0 = solvent.held ∙ ap (held_in t) e in
    let state' : s'.state ≡ awaiting_delivery = ground arith in
    record {
      held = rw state' (ground arith);
      accounted = ground (arith, zero t.buyer, zero t.seller);
      others = λ a x y. ground (arith, zero a);
      buyer_owed = λ k. ground (arith, zero t.buyer);
      seller_owed = λ k. ground (arith, zero t.seller);
    }

withdraw-IsSolvent :
    (t : Terms) (sender : ℕ) (s s' : Escrow)
    → t.buyer ≢ t.seller
    → IsSolvent t s
    → s.withdrawals sender ≢ 0
    → record s {
      withdrawals = write sender 0 s.withdrawals;
      balance = s.balance - s.withdrawals sender;
    }
      ≡ s'
    → IsSolvent t s'
withdraw-IsSolvent t sender s s' distinct solvent some_due h =
    let state' : s'.state ≡ s.state = ground arith in
    record {
      held = rw state' (ground arith);
      accounted = ground (arith, solvent.others sender);
      others = λ a x y. ground (arith, solvent.others a);
      buyer_owed = λ k. ground (arith, solvent.buyer_owed (rw (← state') k));
      seller_owed = λ k. ground (arith, solvent.seller_owed (rw (← state') k));
    }

effect-IsSolvent :
    (t : Terms) (sender : ℕ) (m : Method) (s s' : Escrow)
    → t.buyer ≢ t.seller
    → IsSolvent t s
    → guards t sender m s ≡ true
    → effect t sender m s ≡ some s'
    → IsSolvent t s'
unfolding guards effect credit resolve
effect-IsSolvent t sender (Method.deposit value) s s' distinct solvent ok h =
    let state = in_state-eq awaiting_payment s.state (ground arith) in
    deposit-IsSolvent t value s s' solvent state (ground arith) (ground arith)
effect-IsSolvent t sender Method.cancel s s' distinct solvent ok h =
    let state = in_state-eq awaiting_payment s.state (ground arith) in
    still-IsSolvent t awaiting_payment cancelled s s' solvent (state, ground arith)
      (ground arith, ground arith, ground arith) (refl, refl) refl
effect-IsSolvent t sender Method.confirm_delivery s s' distinct solvent ok h =
    let state = in_state-eq awaiting_delivery s.state (ground arith) in
    let (balance, zero) = uncredited t awaiting_delivery s solvent state (refl, refl) in
    credit-IsSolvent t t.seller (record s { state = complete }) s' distinct (inr (refl, refl))
      balance zero h
effect-IsSolvent t sender Method.approve_refund s s' distinct solvent ok h =
    let state = in_state-eq refund_requested s.state (ground arith) in
    let (balance, zero) = uncredited t refund_requested s solvent state (refl, refl) in
    credit-IsSolvent t t.buyer (record s { state = refunded }) s' distinct (inl (refl, refl))
      balance zero h
effect-IsSolvent t sender (Method.request_refund c) s s' distinct solvent ok h =
    let state = in_state-eq awaiting_delivery s.state (ground arith) in
    still-IsSolvent t awaiting_delivery refund_requested s s' solvent (state, ground arith)
      (ground arith, ground arith, ground arith) (refl, refl) refl
effect-IsSolvent t sender (Method.open_dispute c) s s' distinct solvent ok h =
    elim (Bool-cases (in_state awaiting_delivery s.state)) [
      | inl first ↦
          still-IsSolvent t awaiting_delivery disputed s s' solvent
            (in_state-eq awaiting_delivery s.state first, ground arith)
            (ground arith, ground arith, ground arith) (refl, refl) refl
      | inr second ↦
          still-IsSolvent t refund_requested disputed s s' solvent
            (in_state-eq refund_requested s.state (ground arith), ground arith)
            (ground arith, ground arith, ground arith) (refl, refl) refl
    ]
effect-IsSolvent t sender (Method.record_verified_evidence claim c) s s' distinct solvent ok h =
    let state = in_state-eq disputed s.state (ground arith) in
    still-IsSolvent t disputed disputed s s' solvent (state, ground arith)
      (ground arith, ground arith, ground arith) (refl, refl) refl
effect-IsSolvent t sender (Method.settle_verified_condition claim c) s s' distinct solvent ok h =
    let state = in_state-eq awaiting_delivery s.state (ground arith) in
    let (balance, zero) = uncredited t awaiting_delivery s solvent state (refl, refl) in
    credit-IsSolvent t t.seller
      (record s { active_evidence_commitment = c; verified_claim_id = claim; state = complete }) s'
      distinct (inr (refl, refl)) balance zero h
effect-IsSolvent t sender (Method.record_verified_condition claim c) s s' distinct solvent ok h =
    let state = in_state-eq awaiting_delivery s.state (ground arith) in
    still-IsSolvent t awaiting_delivery awaiting_delivery s s' solvent (state, ground arith)
      (ground arith, ground arith, ground arith) (refl, refl) refl
effect-IsSolvent t sender (Method.resolve_dispute Resolution.refund_buyer) s s' distinct solvent ok
      h =
    let state = in_state-eq disputed s.state (ground arith) in
    let (balance, zero) = uncredited t disputed s solvent state (refl, refl) in
    credit-IsSolvent t t.buyer (record s { state = refunded }) s' distinct (inl (refl, refl))
      balance zero h
effect-IsSolvent t sender (Method.resolve_dispute Resolution.release_to_seller) s s' distinct
      solvent ok h =
    let state = in_state-eq disputed s.state (ground arith) in
    let (balance, zero) = uncredited t disputed s solvent state (refl, refl) in
    credit-IsSolvent t t.seller (record s { state = complete }) s' distinct (inr (refl, refl))
      balance zero h
effect-IsSolvent t sender (Method.withdraw b) s s' distinct solvent ok h =
    withdraw-IsSolvent t sender s s' distinct solvent (ground arith) (ground arith)

-- In every state that a sequence of calls can reach, the contract holds exactly the deposit that
-- is still undecided plus what its buyer and its seller may withdraw; it owes nothing to others;
-- and nothing is credited before the outcome.
pub IsReachable-IsSolvent :
    (t : Terms) {s : Escrow} → constructor_accepts t ≡ true → IsReachable t s → IsSolvent t s
unfolding constructor_accepts call
IsReachable-IsSolvent t ok start = created-IsSolvent t
IsReachable-IsSolvent t {s = s'} ok (after {s} sender m r h) =
    effect-IsSolvent t sender m s s' (ground arith) (IsReachable-IsSolvent t ok r) (ground arith)
      (ground arith)
