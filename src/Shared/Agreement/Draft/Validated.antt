-- ===== src/Shared/Agreement/Draft/Validated.antt =====
-- What `validateAgreementDraft` of packages/shared/src/index.ts guarantees of a draft.
use veyronis.Prelude.{
  ◌<◌, String, ◌≡◌, ◌≢◌, Bool, true, false, Option, none, some, List, [], ◌∷◌, arith, length,
  get_or, is_some,
}
use veyronis.Prelude.Flow.{next}
use veyronis.Prelude.Text.{to_lower_case, big_int}
use veyronis.Ethers.{Ethers}
use veyronis.Shared.Policy.{zero_address, external_blockchain_condition_from_policy}
use veyronis.Shared.Agreement.{
  AgreementDeliverable, AgreementDraft, AgreementLifecycleMode, blockchain_condition_only,
  application_work_evidence, hybrid, has_application_evidence_requirements,
  agreement_lifecycle_mode, mode_of,
}
use veyronis.Shared.Agreement.Draft.{
  agreement_draft_schema, has_zero_address, shares_participant, mode_terms, zero_nonce,
  validate_agreement_draft,
}
use text.Mathlib.TextEquality.{eq_iff}

pub record IsValidated (uuid : String → Bool) (e : Ethers) (d : AgreementDraft) : Type 0 where
  pub shape : agreement_draft_schema uuid d ≡ true
  pub buyer_nonzero : to_lower_case d.buyer ≢ zero_address
  pub seller_nonzero : to_lower_case d.seller ≢ zero_address
  pub arbitrator_nonzero : to_lower_case d.arbitrator ≢ zero_address
  pub registry_nonzero : to_lower_case d.evidence_registry ≢ zero_address
  pub nonce_nonzero : to_lower_case d.agreement_nonce ≢ zero_nonce
  pub buyer_seller : to_lower_case d.buyer ≢ to_lower_case d.seller
  pub buyer_arbitrator : to_lower_case d.buyer ≢ to_lower_case d.arbitrator
  pub seller_arbitrator : to_lower_case d.seller ≢ to_lower_case d.arbitrator
  pub positive : 0 < big_int d.required_amount
  pub mode : agreement_lifecycle_mode e none d.deliverables d.policy ≡ d.agreement_mode
  pub no_deliverables :
      d.agreement_mode ≡ blockchain_condition_only → length (get_or d.deliverables []) ≡ 0

has_zero_address-false :
    (d : AgreementDraft)
    → has_zero_address d ≡ false
    → (to_lower_case d.buyer ≢ zero_address)
      × (to_lower_case d.seller ≢ zero_address)
      × (to_lower_case d.arbitrator ≢ zero_address)
      × (to_lower_case d.evidence_registry ≢ zero_address)
unfolding has_zero_address
has_zero_address-false d h = ground (
  arith,
  eq_iff (to_lower_case d.buyer) zero_address,
  eq_iff (to_lower_case d.seller) zero_address,
  eq_iff (to_lower_case d.arbitrator) zero_address,
  eq_iff (to_lower_case d.evidence_registry) zero_address,
)

shares_participant-false :
    (d : AgreementDraft)
    → shares_participant d ≡ false
    → (to_lower_case d.buyer ≢ to_lower_case d.seller)
      × (to_lower_case d.buyer ≢ to_lower_case d.arbitrator)
      × (to_lower_case d.seller ≢ to_lower_case d.arbitrator)
unfolding shares_participant
shares_participant-false d h = ground (
  arith,
  eq_iff (to_lower_case d.buyer) (to_lower_case d.seller),
  eq_iff (to_lower_case d.buyer) (to_lower_case d.arbitrator),
  eq_iff (to_lower_case d.seller) (to_lower_case d.arbitrator),
)

mode_terms-next :
    (mode : AgreementLifecycleMode) (condition work : Bool) (ds : List AgreementDeliverable)
    → mode_terms mode condition work ds ≡ next tt
    → (work ≡ true → length ds ≢ 0)
    → (mode_of condition work ≡ mode) × (mode ≡ blockchain_condition_only → length ds ≡ 0)
unfolding mode_terms mode_of
mode_terms-next blockchain_condition_only c w ds h k = ground arith
mode_terms-next application_work_evidence c w ds h k = ground arith
mode_terms-next hybrid c w ds h k = ground arith

work-length :
    (o : Option (List AgreementDeliverable))
    → has_application_evidence_requirements o ≡ true
    → length (get_or o []) ≢ 0
unfolding has_application_evidence_requirements
work-length none h = cc
work-length (some []) h = cc
work-length (some (d ∷ ds)) h = omega arith

-- The steps that a validated draft went through.
validate-steps :
    (uuid : String → Bool) (e : Ethers) (d d' : AgreementDraft)
    → validate_agreement_draft uuid e d ≡ next d'
    → (d ≡ d')
      × (agreement_draft_schema uuid d ≡ true)
      × (has_zero_address d ≡ false)
      × (to_lower_case d.agreement_nonce ≢ zero_nonce)
      × (shares_participant d ≡ false)
      × (big_int d.required_amount ≢ 0)
      × (mode_terms d.agreement_mode
            (is_some (external_blockchain_condition_from_policy e d.policy))
            (has_application_evidence_requirements d.deliverables)
            (get_or d.deliverables [])
          ≡ next tt)
unfolding validate_agreement_draft
validate-steps uuid e d d' h = ground (arith, eq_iff (to_lower_case d.agreement_nonce) zero_nonce)

-- A draft that passes is returned unchanged; its addresses and nonce are not zero, its
-- participants are distinct in any case of their letters, its amount is positive, its declared
-- mode is the one that its terms imply, and in the blockchain-only mode it has no deliverables.
pub validate-IsValidated :
    (uuid : String → Bool) (e : Ethers) (d d' : AgreementDraft)
    → validate_agreement_draft uuid e d ≡ next d'
    → (d ≡ d') × IsValidated uuid e d
unfolding agreement_lifecycle_mode
validate-IsValidated uuid e d d' h =
    let (same, shape, zero, nonce, shared, amount, terms) = validate-steps uuid e d d' h in
    let (buyer, seller, arbitrator, registry) = has_zero_address-false d zero in
    let (bs, ba, sa) = shares_participant-false d shared in
    let (mode, empty) = mode_terms-next d.agreement_mode _ _ _ terms (work-length d.deliverables) in
    (
      same,
      record {
        shape = shape;
        buyer_nonzero = buyer;
        seller_nonzero = seller;
        arbitrator_nonzero = arbitrator;
        registry_nonzero = registry;
        nonce_nonzero = nonce;
        buyer_seller = bs;
        buyer_arbitrator = ba;
        seller_arbitrator = sa;
        positive = omega arith;
        mode = mode;
        no_deliverables = empty;
      },
    )
