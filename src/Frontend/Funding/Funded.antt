-- ===== src/Frontend/Funding/Funded.antt =====
-- What a completed deposit of frontend/app/escrow/escrow-funding.ts stands for.
use veyronis.Prelude.{
  ℕ, suc, ◌≤◌, String, ◌≡◌, refl, ap, subst, ◌∙◌, true, false, Option, none, some, arith, ==_iff,
  ◌==◌, Bool-cases, inl, inr, and-eq-true, is_some,
}
use veyronis.Prelude.BigInt.{ℤ, pos, negsuc, parse_big_int}
use veyronis.Prelude.Text.{truthy}
use veyronis.Prelude.Flow.{Flow, next, failed, threw, bind-eq-next, require-eq-next, next-injective}
use veyronis.Prelude.Flow.Run
use veyronis.Prelude.Flow.Run.{Run, ◌>>=◌, lift-eq-next}
use veyronis.Shared.Chain.{AgreementChainSnapshot}
use veyronis.Shared.Escrow.{state_code, awaiting_payment}
use veyronis.Frontend.Executor.{
  TransactionReceiptInfo, Outcome, answered, thrown, Thrown, complete, Calling, MinedReceipt,
  WalletReconciliationResult,
}
use veyronis.Frontend.Executor.Complete.{
  Mined, Settled, is_pending, execute_wallet_transaction-Settled,
}
use veyronis.Frontend.Funding.Conditions.{
  IsBuyersWallet, AwaitsDeposit, HasDeposit, is_funding_wallet-IsBuyersWallet,
  check_funding_state-AwaitsDeposit, awaits_payment-eq, is_reconciled-HasDeposit,
}
use veyronis.Frontend.Funding.{
  FundingDetails, EscrowFundingChecks, FundingState, FundingServices, validate_chain,
  validate_snapshot, validate_details, validate_escrow_funding, transaction_network_error,
  is_funding_wallet, positive_amount, check_funding_state, after_backend, is_reconciled, is_funded,
  after_funded_state, reconcile_funding, funding_transaction, deposit_and_follow, fund_escrow,
  await_call, of_failed, of_outcome,
}

-- The snapshot passed the validation, for this wallet's address.
pub record IsFundable (details : FundingDetails) (address : String) (chain : AgreementChainSnapshot)
    (amount : ℕ) : Type 0 where
  pub snapshot : details.chain ≡ some chain
  pub wallet : IsBuyersWallet address details chain
  pub state : chain.state ≡ awaiting_payment
  pub parsed : parse_big_int chain.required_amount ≡ some (pos amount)
  pub positive : 1 ≤ amount

positive_amount-next :
    (o : Option ℤ) (amount : ℕ)
    → positive_amount o ≡ next amount
    → (o ≡ some (pos amount)) × (1 ≤ amount)
unfolding positive_amount
positive_amount-next none amount h = cc
positive_amount-next (some (pos ℕ.zero)) amount h = cc
positive_amount-next (some (pos (suc n))) amount h =
    let same : suc n ≡ amount = next-injective h in
    (ap (λ k. some (pos k)) same, subst (λ k. 1 ≤ k) same (omega arith))
positive_amount-next (some (negsuc n)) amount h = cc

validate_chain-IsFundable :
    (required : ℕ) (address : String) (checks : EscrowFundingChecks) (details : FundingDetails)
    (chain : AgreementChainSnapshot) (amount : ℕ)
    → checks.wallet_address ≡ some address
    → details.chain ≡ some chain
    → validate_chain required checks details chain ≡ next amount
    → IsFundable details address chain amount
unfolding validate_chain
validate_chain-IsFundable required address checks details chain amount its snapshot h =
    let (_, _, h1) = bind-eq-next (transaction_network_error checks.wallet_chain_id required) _ h in
    let (wallet, h2) =
      require-eq-next (is_funding_wallet checks.wallet_address details chain) _ _ h1 in
    let (state, h3) =
      require-eq-next (state_code chain.state == state_code awaiting_payment) _ _ h2 in
    let (n, positive, h4) =
      bind-eq-next (positive_amount (parse_big_int chain.required_amount)) _ h3 in
    let (_, h5) = require-eq-next _ _ (next n) h4 in
    let (parsed, low) = positive_amount-next (parse_big_int chain.required_amount) n positive in
    subst (IsFundable details address chain) (next-injective h5) (record {
      snapshot = snapshot;
      wallet =
          is_funding_wallet-IsBuyersWallet address details chain
            (subst (λ o. is_funding_wallet o details chain ≡ true) its wallet);
      state = awaits_payment-eq chain.state state;
      parsed = parsed;
      positive = low;
    })

validate_snapshot-IsFundable :
    (required : ℕ) (address : String) (checks : EscrowFundingChecks) (details : FundingDetails)
    (o : Option AgreementChainSnapshot) (chain : AgreementChainSnapshot) (amount : ℕ)
    → checks.wallet_address ≡ some address
    → details.chain ≡ o
    → validate_snapshot required checks details o ≡ next (chain, amount)
    → IsFundable details address chain amount
unfolding validate_snapshot
validate_snapshot-IsFundable required address checks details none chain amount its held h = cc
validate_snapshot-IsFundable required address checks details (some c) chain amount its held h =
    elim (Bool-cases (is_some (truthy (some c.escrow_address)))) [
      | inl t ↦
          let (n, valid, h1) =
            bind-eq-next (validate_chain required checks details c) _ (rw t at h) in
          let same = next-injective h1 in
          let same_chain : c ≡ chain = ap (λ x. x.0) same in
          let same_amount : n ≡ amount = ap (λ x. x.1) same in
          subst (λ k. IsFundable details address chain k) same_amount
            (subst (λ d. IsFundable details address d n) same_chain
              (validate_chain-IsFundable required address checks details c n its held valid))
      | inr f ↦ absurd (ground arith)
    ]

validate_escrow_funding-IsFundable :
    (required : ℕ) (address : String) (network balance : Option ℕ) (details : FundingDetails)
    (chain : AgreementChainSnapshot) (amount : ℕ)
    → validate_escrow_funding required (record {
      wallet_address = some address;
      wallet_chain_id = network;
      details = some details;
      balance = balance;
    })
      ≡ next (chain, amount)
    → IsFundable details address chain amount
unfolding validate_escrow_funding validate_details
validate_escrow_funding-IsFundable required address network balance details chain amount h =
    validate_snapshot-IsFundable required address
      (record {
        wallet_address = some address;
        wallet_chain_id = network;
        details = some details;
        balance = balance;
      })
      details details.chain chain amount refl refl h

-- A call that answered.
pub record Replied {World A : Type 0} (call : Calling World A) (a : A) : Type 0 where
  pub at : World
  pub reply : (call at).0 ≡ answered a

of_failed-next : {A : Type 0} (m : Flow String A) (a : A) → of_failed m ≡ next a → m ≡ next a
of_failed-next (next b) a h = ap next (next-injective h)
of_failed-next (failed message) a h = cc
of_failed-next threw a h = cc

of_outcome-next : {A : Type 0} (o : Outcome A) (a : A) → of_outcome o ≡ next a → o ≡ answered a
unfolding of_outcome
of_outcome-next (answered b) a h = ap answered (next-injective h)
of_outcome-next (thrown t) a h = cc

module _ {World : Type 0} (services : FundingServices World) where
  await_call-eq-next :
      {A B : Type 0} (call : Calling World A) (f : A → Run World Thrown B) (w : World) {b : B}
      {t : World}
      → (await_call services call >>= f) w ≡ (next b, t)
      → (a : A) × (v : World) × Replied call a × (f a v ≡ (next b, t))
  unfolding await_call
  await_call-eq-next call f w h =
      let (a, v, called, rest) = Run.bind-eq-next (await_call services call) f w h in
      (a, v, record { at = w; reply = of_outcome-next (call w).0 a (ap (λ x. x.0) called) }, rest)

  -- The contract held the deposit when it was read after the transaction, and the backend's
  -- answer had it.
  pub record IsSettled (chain : AgreementChainSnapshot) (amount : ℕ) : Type 0 where
    pub after : FundingState
    pub after_read : Replied (services.read_funding_state chain.escrow_address) after
    pub awaits_delivery : after.state ≡ 1
    pub deposited : after.deposited_amount ≡ amount
    pub backend : Option FundingDetails
    pub backend_read : Replied services.reconcile backend
    pub agrees : HasDeposit chain backend

  after_backend-eqs :
      (chain : AgreementChainSnapshot) (o : Outcome (Option FundingDetails))
      (r : WalletReconciliationResult)
      → after_backend chain o ≡ answered r
      → is_pending r ≡ false
      → (d : Option FundingDetails) × (o ≡ answered d) × (is_reconciled chain d ≡ true)
  unfolding after_backend
  after_backend-eqs chain (thrown t) r h settled = ground arith
  after_backend-eqs chain (answered d) r h settled = elim (Bool-cases (is_reconciled chain d)) [
    | inl t ↦ (d, refl, t)
    | inr f ↦ absurd (ground arith)
  ]

  after_funded_state-IsSettled :
      (chain : AgreementChainSnapshot) (amount : ℕ) (o : Outcome FundingState) (w before : World)
      (r : WalletReconciliationResult)
      → (services.read_funding_state chain.escrow_address before).0 ≡ o
      → (after_funded_state services chain amount o w).0 ≡ answered r
      → is_pending r ≡ false
      → IsSettled chain amount
  unfolding after_funded_state
  after_funded_state-IsSettled chain amount (thrown t) w before r e h settled = cc
  after_funded_state-IsSettled chain amount (answered s) w before r e h settled =
      elim (Bool-cases (is_funded s amount)) [
        | inl t ↦
            let (d, got, agrees) =
              after_backend-eqs chain (services.reconcile w).0 r (rw t at h) settled in
            let (one, same) = and-eq-true (s.state == 1) (s.deposited_amount == amount) t in
            record {
              after = s;
              after_read = record { at = before; reply = e };
              awaits_delivery = (==_iff s.state 1).0 one;
              deposited = (==_iff s.deposited_amount amount).0 same;
              backend = d;
              backend_read = record { at = w; reply = got };
              agrees = is_reconciled-HasDeposit chain d agrees;
            }
        | inr f ↦ absurd (ground arith)
      ]

  reconcile_funding-IsSettled :
      (chain : AgreementChainSnapshot) (amount : ℕ) (w : World) (r : WalletReconciliationResult)
      → (reconcile_funding services chain amount w).0 ≡ answered r
      → is_pending r ≡ false
      → IsSettled chain amount
  unfolding reconcile_funding
  reconcile_funding-IsSettled chain amount w r h settled =
      after_funded_state-IsSettled chain amount
        (services.read_funding_state chain.escrow_address w).0
        (services.read_funding_state chain.escrow_address w).1 w r refl h settled

  pub record Funded (details : FundingDetails) : Type 0 where
    pub address : String
    pub signer : Replied services.signer_address address
    pub chain : AgreementChainSnapshot
    pub amount : ℕ
    pub fundable : IsFundable details address chain amount
    pub before : FundingState
    pub before_read : Replied (services.read_funding_state chain.escrow_address) before
    pub awaited : AwaitsDeposit before amount
    pub hash : String
    pub submitted : Replied (services.deposit chain.escrow_address amount) hash
    pub receipt : MinedReceipt
    -- Of this deposit: in the world that its call left.
    pub mined :
        (services.wait (services.deposit chain.escrow_address amount submitted.at).1).0
        ≡ answered (some receipt)
    pub succeeded : receipt.status ≡ some 1
    pub settled : IsSettled chain amount

  deposit_and_follow-settled :
      (chain : AgreementChainSnapshot) (amount network : ℕ) (w v : World)
      (r : TransactionReceiptInfo)
      → deposit_and_follow services chain amount network w ≡ (next r, v)
      → r.status ≡ complete
      → (hash : String) × (submitted : Replied (services.deposit chain.escrow_address amount) hash)
        × Mined
            (funding_transaction services chain amount network)
            (services.deposit chain.escrow_address amount submitted.at).1
        × Settled (funding_transaction services chain amount network)
  unfolding deposit_and_follow
  deposit_and_follow-settled chain amount network w v r h done =
      let tx = funding_transaction services chain amount network in
      let same = next-injective (ap (λ x. x.0) h) in
      let (hash, submitted, mined, settled) =
        execute_wallet_transaction-Settled tx w (ap (λ x. x.status) same ∙ done) in
      (hash, record { at = w; reply = submitted }, mined, settled)

  pub fund_escrow-Funded :
      (required : ℕ) (details : FundingDetails) (w v : World) (r : TransactionReceiptInfo)
      → fund_escrow services required details w ≡ (next r, v)
      → r.status ≡ complete
      → Funded details
  unfolding fund_escrow
  fund_escrow-Funded required details w v r h done =
      let (address, w1, signer, h1) = await_call-eq-next services.signer_address _ w h in
      let (balance, w2, _, h2) = await_call-eq-next (services.get_balance address) _ w1 h1 in
      let (network, w3, _, h3) = await_call-eq-next services.chain_id _ w2 h2 in
      let checks : EscrowFundingChecks = record {
        wallet_address = some address;
        wallet_chain_id = some network;
        details = some details;
        balance = some balance;
      } in
      let (checked, valid, h4) =
        lift-eq-next (of_failed (validate_escrow_funding required checks)) _ w3 h3 in
      let (before, w4, before_read, h5) =
        await_call-eq-next (services.read_funding_state checked.0.escrow_address) _ w3 h4 in
      let (_, awaited, h6) = lift-eq-next (check_funding_state before checked.1) _ w4 h5 in
      let (hash, submitted, mined, settled) =
        deposit_and_follow-settled checked.0 checked.1 network w4 v r h6 done in
      record {
        address = address;
        signer = signer;
        chain = checked.0;
        amount = checked.1;
        fundable =
            validate_escrow_funding-IsFundable required address (some network) (some balance)
              details checked.0 checked.1
              (of_failed-next (validate_escrow_funding required checks) checked valid);
        before = before;
        before_read = before_read;
        awaited = check_funding_state-AwaitsDeposit before checked.1 awaited;
        hash = hash;
        submitted = submitted;
        receipt = mined.receipt;
        mined = mined.mined;
        succeeded = mined.succeeded;
        settled =
            reconcile_funding-IsSettled checked.0 checked.1 settled.at settled.result settled.answer
              settled.settled;
      }
