-- ===== src/Dashboard/Service/Details.antt =====
-- What the details of backend/src/agreements/dashboard-service.ts show.
use veyronis.Prelude.{
  String, ◌≡◌, refl, sym, ap, ◌⊎◌, ◌∙◌, Option, none, some, [], List, arith, inl, inr,
}
use veyronis.Prelude.Flow.{
  Flow, next, failed, threw, bind-eq-next, or_throw-eq-next, or_throw-next, or_throw, or_fail,
  or_fail-next, next-injective,
}
use veyronis.Prelude.Flow.Run
use veyronis.Prelude.Flow.Run.{lift-eq-next, pure-eq-next}
use veyronis.Prelude.BigInt.{ℤ, parse_big_int}
use veyronis.Prelude.Text.{truthy}
use veyronis.Ethers.{Ethers}
use veyronis.Shared.Agreement.{AgreementMetadata}
use veyronis.Shared.Escrow.{ParticipantRole, AgreementAction}
use veyronis.Shared.Chain.{AgreementChainSnapshot}
use veyronis.Dashboard.{actions_for, metadata_for_participant, metadata_mode}
use veyronis.Dashboard.Reconciliation.{Reconciled, reconcile}
use veyronis.Dashboard.Snapshot.{
  DashboardServices, AgreementDetails, role_for, snapshot_actions, snapshot_details,
}
use veyronis.Dashboard.Snapshot.Roles.{
  IsVisible, IsRole, metadata_for_participant-IsVisible, role_for-IsRole,
}
use veyronis.Dashboard.Service.{
  details, details_for, details_on_chain, reconciled_details, record_result, recover,
}

module _ (e : Ethers) where
  -- The actions that belong to what is shown of the chain.
  abbrev pub Shown : AgreementDetails → Option AgreementChainSnapshot → Type 0
  Shown d none = d.actions ≡ []
  Shown d (some s) =
      (w : ℤ) × (parse_big_int s.withdrawal_amount ≡ some w)
      × (d.actions ≡ actions_for d.role s.state w (metadata_mode e d.metadata))

module _ {S : Type 0} (e : Ethers) (services : DashboardServices S) where
  -- A snapshot that a reconciliation of the agreement made, or that was read of its contract.
  abbrev pub IsChainOf :
      AgreementMetadata → String → Option String → Option AgreementChainSnapshot → Type 0
  IsChainOf m address none c = c ≡ none
  IsChainOf m address (some escrow) c =
      (snapshot : AgreementChainSnapshot) × (c ≡ some snapshot)
      × (((r : Reconciled) × (reconcile e services.reader m address ≡ next r)
            × (r.snapshot ≡ snapshot))
          ⊎ (services.reader.read_snapshot escrow address ≡ some snapshot))

  snapshot_actions-next :
      (m : AgreementMetadata) (role : ParticipantRole) (s : AgreementChainSnapshot)
      (actions : List AgreementAction)
      → snapshot_actions e services m role s ≡ next actions
      → (w : ℤ) × (parse_big_int s.withdrawal_amount ≡ some w)
        × (actions ≡ actions_for role s.state w (metadata_mode e m))
  unfolding snapshot_actions
  snapshot_actions-next m role s actions h =
      let (w, parsed, h1) = or_throw-eq-next (parse_big_int s.withdrawal_amount) _ h in
      (w, parsed, ground arith)

  shown :
      (m : AgreementMetadata) (role : ParticipantRole) (s : AgreementChainSnapshot)
      (actions : List AgreementAction) (d d' : AgreementDetails)
      → snapshot_actions e services m role s ≡ next actions
      → (d.metadata ≡ m) × (d.role ≡ role) × (d.chain ≡ some s) × (d.actions ≡ actions)
      → d ≡ d'
      → (d'.metadata ≡ m) × (d'.role ≡ role) × Shown e d' d'.chain
  shown m role s actions d d' chosen (metadata, is_role, chain, listed) same =
      let (w, parsed, a) = snapshot_actions-next m role s actions chosen in
      let actions' =
        listed
        ∙ a
        ∙ ap (λ r. actions_for r s.state w (metadata_mode e m)) (sym is_role)
        ∙ ap (λ x. actions_for d.role s.state w (metadata_mode e x)) (sym metadata) in
      let show : Shown e d d.chain = rw chain (w, parsed, actions') in
      rw (← same) (metadata, is_role, show)

  snapshot_details-Shown :
      (m : AgreementMetadata) (role : ParticipantRole) (escrow address : String)
      (d : AgreementDetails)
      → snapshot_details e services m role escrow address ≡ next d
      → (d.metadata ≡ m) × (d.role ≡ role) × Shown e d d.chain
  unfolding snapshot_details
  snapshot_details-Shown m role escrow address d h =
      let (s, read, h1) = or_throw-eq-next (services.reader.read_snapshot escrow address) _ h in
      let (actions, chosen, h2) = bind-eq-next (snapshot_actions e services m role s) _ h1 in
      shown m role s actions _ d chosen (refl, refl, refl, refl) (next-injective h2)

  reconciled_details-Shown :
      (m : AgreementMetadata) (role : ParticipantRole) (address : String) (s : S)
      (d : AgreementDetails) (s' : S)
      → reconciled_details e services m role address s ≡ (next d, s')
      → (d.metadata ≡ m) × (d.role ≡ role) × Shown e d d.chain
  unfolding reconciled_details
  reconciled_details-Shown m role address s d s' h =
      let (r, found, h1) = lift-eq-next (reconcile e services.reader m address) _ s h in
      let (u, t, recorded, h2) = Run.bind-eq-next (record_result e services m.id r) _ s h1 in
      let (actions, chosen, h3) =
        lift-eq-next (snapshot_actions e services m role r.snapshot) _ t h2 in
      let (same, unchanged) = pure-eq-next _ t h3 in
      shown m role r.snapshot actions _ d chosen (refl, refl, refl, refl) same

  recover-eq-next :
      (r : Flow String AgreementDetails × S) (other : Flow String AgreementDetails)
      (d : AgreementDetails) (s' : S)
      → recover e services r other ≡ (next d, s')
      → (r ≡ (next d, s')) ⊎ (other ≡ next d)
  unfolding recover
  recover-eq-next (next a, s) other d s' h = inl h
  recover-eq-next (failed m, s) other d s' h = inr (ap (λ x. x.0) h)
  recover-eq-next (threw, s) other d s' h = inr (ap (λ x. x.0) h)

  details_on_chain-Shown :
      (m : AgreementMetadata) (role : ParticipantRole) (o : Option String) (address : String)
      (s : S) (d : AgreementDetails) (s' : S)
      → details_on_chain e services m role o address s ≡ (next d, s')
      → (d.metadata ≡ m) × (d.role ≡ role) × Shown e d d.chain
  unfolding details_on_chain recover
  details_on_chain-Shown m role none address s d s' h =
      let (metadata, is_role, chain, listed) : (d.metadata ≡ m)
          × (d.role ≡ role)
          × (d.chain ≡ none)
          × (d.actions ≡ []) =
        ground arith in
      (metadata, is_role, rw chain listed)
  details_on_chain-Shown m role (some escrow) address s d s' h =
      elim (recover-eq-next _ (snapshot_details e services m role escrow address) d s' h) [
        | inl there ↦ reconciled_details-Shown m role address s d s' there
        | inr here ↦ snapshot_details-Shown m role escrow address d here
      ]

  snapshot_details-chain :
      (m : AgreementMetadata) (role : ParticipantRole) (escrow address : String)
      (d : AgreementDetails)
      → snapshot_details e services m role escrow address ≡ next d
      → IsChainOf m address (some escrow) d.chain
  unfolding snapshot_details
  snapshot_details-chain m role escrow address d h =
      let (s, read, h1) = or_throw-eq-next (services.reader.read_snapshot escrow address) _ h in
      let (actions, chosen, h2) = bind-eq-next (snapshot_actions e services m role s) _ h1 in
      (s, ap (λ x. x.chain) (sym (next-injective h2)), inr read)

  reconciled_details-chain :
      (m : AgreementMetadata) (role : ParticipantRole) (escrow address : String) (s : S)
      (d : AgreementDetails) (s' : S)
      → reconciled_details e services m role address s ≡ (next d, s')
      → IsChainOf m address (some escrow) d.chain
  unfolding reconciled_details
  reconciled_details-chain m role escrow address s d s' h =
      let (r, found, h1) = lift-eq-next (reconcile e services.reader m address) _ s h in
      let (u, t, recorded, h2) = Run.bind-eq-next (record_result e services m.id r) _ s h1 in
      let (actions, chosen, h3) =
        lift-eq-next (snapshot_actions e services m role r.snapshot) _ t h2 in
      let (same, unchanged) = pure-eq-next _ t h3 in
      (r.snapshot, ap (λ x. x.chain) (sym same), inl (r, found, refl))

  details_on_chain-chain :
      (m : AgreementMetadata) (role : ParticipantRole) (o : Option String) (address : String)
      (s : S) (d : AgreementDetails) (s' : S)
      → details_on_chain e services m role o address s ≡ (next d, s')
      → IsChainOf m address o d.chain
  unfolding details_on_chain recover
  details_on_chain-chain m role none address s d s' h =
      let same = next-injective (ap (λ x. x.0) h) in ap (λ x. x.chain) (sym same)
  details_on_chain-chain m role (some escrow) address s d s' h =
      elim (recover-eq-next _ (snapshot_details e services m role escrow address) d s' h) [
        | inl there ↦ reconciled_details-chain m role escrow address s d s' there
        | inr here ↦ snapshot_details-chain m role escrow address d here
      ]

  -- Details that are returned are those of the stored agreement, whose deliverables are hidden
  -- exactly in the blockchain-only mode, and of the first of the roles buyer, seller and arbitrator
  -- whose address is the one that asked. The actions offered are those of that role in the
  -- state of the contract that is shown, with the withdrawal read there; this state was seen by the
  -- reconciliation or was read of the contract at the agreement's escrow address. Without a contract
  -- none is offered.
  pub details-Shown :
      (id address_input : String) (s : S) (d : AgreementDetails) (s' : S)
      → details e services id address_input s ≡ (next d, s')
      → (address : String) × (stored : AgreementMetadata) × (e.get_address address_input
          ≡ some address)
        × (services.get_agreement_by_id id s ≡ some stored)
        × IsVisible e stored d.metadata
        × IsRole e d.metadata address d.role
        × IsChainOf d.metadata address (truthy d.metadata.escrow_address) d.chain
        × Shown e d d.chain
  unfolding details details_for
  details-Shown id address_input s d s' h =
      let (address, parsed, h1) = lift-eq-next (or_throw (e.get_address address_input)) _ s h in
      let (stored, found, h2) =
        lift-eq-next (or_fail (services.get_agreement_by_id id s) _) _ s h1 in
      let m = metadata_for_participant e stored in
      let (role, is_role, h3) = lift-eq-next (role_for e m address) _ s h2 in
      let (metadata, same, show) =
        details_on_chain-Shown m role (truthy m.escrow_address) address s d s' h3 in
      (
        address,
        stored,
        or_throw-next _ parsed,
        or_fail-next _ _ found,
        rw metadata (metadata_for_participant-IsVisible e stored),
        rw (metadata, same) (role_for-IsRole e m address role is_role),
        rw metadata (details_on_chain-chain m role (truthy m.escrow_address) address s d s' h3),
        show,
      )
