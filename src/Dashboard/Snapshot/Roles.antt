-- ===== src/Dashboard/Snapshot/Roles.antt =====
-- The role of an address in an agreement, and what of the agreement its participants may see, in
-- backend/src/agreements/dashboard-service.ts.
use veyronis.Prelude.{
  String, ◌≡◌, ◌≢◌, ◌⊎◌, refl, ap, subst, true, false, none, some, List, [], ◌∷◌, arith, inl, inr,
  Bool-cases, is_some, Option-cases,
}
use veyronis.Prelude.Flow.{next, or_throw-eq-next, next-injective}
use veyronis.Ethers.{Ethers}
use veyronis.Shared.Agreement.{
  AgreementMetadata, AgreementDeliverable, AgreementLifecycleMode, blockchain_condition_only,
  application_work_evidence, hybrid,
}
use veyronis.Shared.Escrow.{ParticipantRole, buyer, seller, arbitrator}
use veyronis.Dashboard.{metadata_for_participant, metadata_mode, is_blockchain_only}
use veyronis.Dashboard.Snapshot.{role_among, role_for}
use text.Mathlib.Text.{◌==◌}
use text.Mathlib.TextEquality.{eq_iff}

module _ (e : Ethers) (m : AgreementMetadata) where
  -- The stored agreement, or the one without its deliverables: these are hidden exactly in the
  -- blockchain-only mode.
  pub data IsVisible : AgreementMetadata → Type 0 where
    all_of_it : metadata_mode e m ≢ blockchain_condition_only → IsVisible m
    no_deliverables :
        metadata_mode e m ≡ blockchain_condition_only → m.deliverables ≡ none → IsVisible m
    hidden_deliverables :
        (ds : List AgreementDeliverable)
        → metadata_mode e m ≡ blockchain_condition_only
        → m.deliverables ≡ some ds
        → IsVisible (record m { terms = record m.terms { deliverables = some [] } })

  only_blockchain :
      (mode : AgreementLifecycleMode)
      → is_blockchain_only mode ≡ true
      → mode ≡ blockchain_condition_only
  only_blockchain blockchain_condition_only h = refl
  only_blockchain application_work_evidence h = cc
  only_blockchain hybrid h = cc

  not_only_blockchain :
      (mode : AgreementLifecycleMode)
      → is_blockchain_only mode ≡ false
      → mode ≢ blockchain_condition_only
  not_only_blockchain mode h k = let t = ap is_blockchain_only k in ground arith

  pub metadata_for_participant-IsVisible : IsVisible (metadata_for_participant e m)
  unfolding metadata_for_participant
  metadata_for_participant-IsVisible = elim (Bool-cases (is_blockchain_only (metadata_mode e m))) [
    | inr f ↦ rw f (all_of_it (not_only_blockchain (metadata_mode e m) f))
    | inl t ↦
        let only = only_blockchain (metadata_mode e m) t in
        elim (Option-cases m.deliverables) [
          | inl missing ↦
              let gone = ap is_some missing in rw (t, gone) (no_deliverables only missing)
          | inr (ds, there) ↦
              let kept = ap is_some there in rw (t, kept) (hidden_deliverables ds only there)
        ]
  ]

  -- The first of the roles, in this order, whose checked address is this one.
  abbrev pub IsRole : String → ParticipantRole → Type 0
  IsRole address buyer = e.get_address m.buyer ≡ some address
  IsRole address seller =
      (b : String) × (e.get_address m.buyer ≡ some b)
      × (b ≢ address)
      × (e.get_address m.seller ≡ some address)
  IsRole address arbitrator =
      (b s : String) × (e.get_address m.buyer ≡ some b)
      × (b ≢ address)
      × (e.get_address m.seller ≡ some s)
      × (s ≢ address)
      × (e.get_address m.arbitrator ≡ some address)

  role_among-cons :
      (address participant : String) (role r : ParticipantRole)
      (rest : List (ParticipantRole × String))
      → role_among e address ((role, participant) ∷ rest) ≡ next r
      → (p : String) × (e.get_address participant ≡ some p)
        × (((p ≡ address) × (role ≡ r)) ⊎ ((p ≢ address) × (role_among e address rest ≡ next r)))
  unfolding role_among
  role_among-cons address participant role r rest h =
      let (p, checked, h1) = or_throw-eq-next (e.get_address participant) _ h in
      (
        p,
        checked,
        elim (Bool-cases (p == address)) [
          | inl t ↦ inl ((eq_iff p address).0 t, next-injective (rw t at h1))
          | inr f ↦ inr (λ k. let t = (eq_iff p address).1 k in ground arith, rw f at h1)
        ],
      )

  pub role_for-IsRole :
      (address : String) (r : ParticipantRole) → role_for e m address ≡ next r → IsRole address r
  unfolding role_for role_among
  role_for-IsRole address r h =
      let (b, of_buyer, first) =
        role_among-cons address m.buyer buyer r
          ((seller, m.seller) ∷ (arbitrator, m.arbitrator) ∷ []) h in
      elim first [
        | inl (same, is) ↦ subst (IsRole address) is (rw same at of_buyer)
        | inr (not_buyer, h1) ↦
            let (s, of_seller, second) =
              role_among-cons address m.seller seller r ((arbitrator, m.arbitrator) ∷ []) h1 in
            elim second [
              | inl (same, is) ↦
                  subst (IsRole address) is (b, of_buyer, not_buyer, rw same at of_seller)
              | inr (not_seller, h2) ↦
                  let (a, of_arbitrator, third) =
                    role_among-cons address m.arbitrator arbitrator r [] h2 in
                  elim third [
                    | inl (same, is) ↦
                        subst (IsRole address) is (
                          b,
                          s,
                          of_buyer,
                          not_buyer,
                          of_seller,
                          not_seller,
                          rw same at of_arbitrator,
                        )
                    | inr (_, h3) ↦ cc
                  ]
            ]
      ]
