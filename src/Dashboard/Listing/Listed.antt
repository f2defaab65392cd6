-- ===== src/Dashboard/Listing/Listed.antt =====
-- What the list of backend/src/agreements/dashboard-service.ts shows of each agreement.
use veyronis.Prelude.{String, ◌≡◌, refl, sym, ap, ◌⊎◌, inl, inr, Option, none, some, List, [], ◌∷◌}
use veyronis.Prelude.Flow.{Flow, next, failed, threw, or_throw, or_throw-next, next-injective}
use veyronis.Prelude.Flow.Run
use veyronis.Prelude.Flow.Run.{lift-eq-next, pure-eq-next}
use veyronis.Prelude.Text.{truthy}
use veyronis.Ethers.{Ethers}
use veyronis.Shared.Agreement.{AgreementMetadata}
use veyronis.Shared.Chain.{AgreementChainSnapshot}
use veyronis.Dashboard.{metadata_for_participant}
use veyronis.Dashboard.Reconciliation.{Reconciled, reconcile}
use veyronis.Dashboard.Snapshot.{DashboardServices, ListedAgreement, role_for}
use veyronis.Dashboard.Service.{record_result}
use veyronis.Dashboard.Snapshot.Roles.{
  IsVisible, IsRole, metadata_for_participant-IsVisible, role_for-IsRole,
}
use veyronis.Dashboard.Service.Details.{IsChainOf}
use veyronis.Dashboard.Listing.{
  reconciled_chain, or_snapshot, chain_of, listed_agreement, and_all, listed_agreements, list,
}

module _ {S : Type 0} (e : Ethers) (services : DashboardServices S) where
  pub record IsListed (address : String) (m : AgreementMetadata) (item : ListedAgreement)
      : Type 0 where
    pub metadata : IsVisible e m item.metadata
    pub role : IsRole e m address item.role
    pub chain : IsChainOf e services item.metadata address (truthy m.escrow_address) item.chain

  -- The items are those of the agreements, in the same order.
  pub data AreListed (address : String)
      : List AgreementMetadata → List ListedAgreement → Type 0 where
    no_more : AreListed address [] []
    listed :
        {m : AgreementMetadata} {item : ListedAgreement} {ms : List AgreementMetadata}
        {items : List ListedAgreement}
        → IsListed address m item
        → AreListed address ms items
        → AreListed address (m ∷ ms) (item ∷ items)

  or_snapshot-eq-next :
      (escrow address : String) (r : Flow String AgreementChainSnapshot × S)
      {c : AgreementChainSnapshot} {t : S}
      → or_snapshot e services escrow address r ≡ (next c, t)
      → (r ≡ (next c, t)) ⊎ (services.reader.read_snapshot escrow address ≡ some c)
  unfolding or_snapshot
  or_snapshot-eq-next escrow address (next a, s) h = inl h
  or_snapshot-eq-next escrow address (failed m, s) h = inr (or_throw-next _ (ap (λ x. x.0) h))
  or_snapshot-eq-next escrow address (threw, s) h = inr (or_throw-next _ (ap (λ x. x.0) h))

  reconciled_chain-eq-next :
      (m : AgreementMetadata) (address : String) (s : S) {c : AgreementChainSnapshot} {t : S}
      → reconciled_chain e services m address s ≡ (next c, t)
      → (r : Reconciled) × (reconcile e services.reader (metadata_for_participant e m) address
          ≡ next r)
        × (r.snapshot ≡ c)
  unfolding reconciled_chain
  reconciled_chain-eq-next m address s h =
      let (r, found, h1) = lift-eq-next (reconcile e services.reader _ address) _ s h in
      let (u, t, recorded, h2) = Run.bind-eq-next (record_result e services m.id r) _ s h1 in
      (r, found, (pure-eq-next _ t h2).0)

  chain_of-IsChainOf :
      (m : AgreementMetadata) (o : Option String) (address : String) (s : S)
      {c : Option AgreementChainSnapshot} {t : S}
      → chain_of e services m o address s ≡ (next c, t)
      → IsChainOf e services (metadata_for_participant e m) address o c
  unfolding chain_of
  chain_of-IsChainOf m none address s h = sym (pure-eq-next _ s h).0
  chain_of-IsChainOf m (some escrow) address s h =
      let (c, t, here, h1) =
        Run.bind-eq-next
          (λ s. or_snapshot e services escrow address (reconciled_chain e services m address s)) _ s
          h in
      let same = sym (pure-eq-next _ t h1).0 in
      elim (or_snapshot-eq-next escrow address _ here) [
        | inl there ↦ (c, same, inl (reconciled_chain-eq-next m address s there))
        | inr read ↦ (c, same, inr read)
      ]

  listed_agreement-IsListed :
      (address : String) (m : AgreementMetadata) (s : S) {item : ListedAgreement} {t : S}
      → listed_agreement e services address m s ≡ (next item, t)
      → IsListed address m item
  unfolding listed_agreement
  listed_agreement-IsListed address m s h =
      let (role, is_role, h1) = lift-eq-next (role_for e m address) _ s h in
      let (c, t, here, h2) =
        Run.bind-eq-next (chain_of e services m (truthy m.escrow_address) address) _ s h1 in
      let same = (pure-eq-next _ t h2).0 in
      rw (← same) (record {
        metadata = metadata_for_participant-IsVisible e m;
        role = role_for-IsRole e m address role is_role;
        chain = chain_of-IsChainOf m (truthy m.escrow_address) address s here;
      })

  and_all-eq-next :
      (first : Flow String ListedAgreement) (others : Flow String (List ListedAgreement))
      {items : List ListedAgreement}
      → and_all e services first others ≡ next items
      → (item : ListedAgreement) × (rest : List ListedAgreement) × (first ≡ next item)
        × (others ≡ next rest)
        × (item ∷ rest ≡ items)
  unfolding and_all
  and_all-eq-next (next item) (next rest) h = (item, rest, refl, refl, next-injective h)
  and_all-eq-next (next item) (failed message) h = cc
  and_all-eq-next (next item) threw h = cc
  and_all-eq-next (failed message) others h = cc
  and_all-eq-next threw others h = cc

  listed_agreements-AreListed :
      (address : String) (ms : List AgreementMetadata) (s : S) {items : List ListedAgreement}
      {t : S}
      → listed_agreements e services address ms s ≡ (next items, t)
      → AreListed address ms items
  unfolding listed_agreements
  listed_agreements-AreListed address [] s h = rw (← next-injective (ap (λ x. x.0) h)) no_more
  listed_agreements-AreListed address (m ∷ ms) s h =
      let first = listed_agreement e services address m s in
      let others = listed_agreements e services address ms first.1 in
      let (item, rest, is_first, are_others, same) =
        and_all-eq-next first.0 others.0 (ap (λ x. x.0) h) in
      rw (← same) (
        listed (listed_agreement-IsListed address m s (ap (λ x. (x, first.1)) is_first))
          (listed_agreements-AreListed address ms first.1 (ap (λ x. (x, others.1)) are_others)))

  -- A list that is returned has one item for each agreement of the participant, in the order of
  -- the store: the agreement, whose deliverables are hidden exactly in the blockchain-only mode,
  -- the first of the roles buyer, seller and arbitrator whose address is the participant's and,
  -- when it has a contract, a snapshot that its reconciliation made or that was read of this
  -- contract; without a contract there is none.
  pub list-AreListed :
      (address_input : String) (s : S) (items : List ListedAgreement) (t : S)
      → list e services address_input s ≡ (next items, t)
      → (address : String) × (e.get_address address_input ≡ some address)
        × AreListed address (services.list_agreements_for_participant address s) items
  unfolding list
  list-AreListed address_input s items t h =
      let (address, parsed, h1) = lift-eq-next (or_throw (e.get_address address_input)) _ s h in
      (address, or_throw-next _ parsed, listed_agreements-AreListed address _ s h1)
