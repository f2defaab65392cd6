-- ===== src/Creation/Service/Prepared.antt =====
-- What `prepare` of backend/src/agreements/agreement-service.ts leaves in the store.
use veyronis.Prelude.{ℕ, String, ◌≡◌, refl, sym, ap, ◌∙◌, Bool, true, Option, some, arith}
use veyronis.Prelude.Flow.{next, failed, bind-eq-next, or_throw-eq-next, next-injective}
use veyronis.Prelude.Flow.Run.{lift-eq-next, ◌>>=◌}
use veyronis.Ethers.{Ethers}
use veyronis.Shared.Agreement.{AgreementDraft, AgreementMetadata}
use veyronis.Attestcoin.Commitment.{compute_evidence_policy_commitment}
use veyronis.Creation.{Agreements, create_agreement, get_agreement_by_id, put}
use veyronis.Creation.Preparation.{accepted_draft, prepared_agreement}
use veyronis.Creation.Service.{prepare, create, created, is_awaiting}
use veyronis.Creation.Service.Deployed.{get-put}

abbrev at_time : ℕ → AgreementMetadata → AgreementMetadata
at_time now a = record a { created_at = now; updated_at = now }

-- The time is only in the two dates.
prepared_agreement-later :
    (e : Ethers) (uuid : String → Bool) (commit : AgreementDraft → String → Option String)
    (now later : ℕ) (input : AgreementDraft) (a : AgreementMetadata)
    → prepared_agreement e uuid commit now input ≡ next a
    → (is_awaiting a.deployment_status ≡ true)
      × (prepared_agreement e uuid commit later input ≡ next (at_time later a))
unfolding prepared_agreement
prepared_agreement-later e uuid commit now later input a h =
    let (d, accepted, h1) = bind-eq-next (accepted_draft e uuid input) _ h in
    let (p, policy, h2) = or_throw-eq-next (compute_evidence_policy_commitment e d.policy) _ h1 in
    let (c, committed, h3) = or_throw-eq-next (commit d p) _ h2 in
    let same = next-injective h3 in
    (
      ap (λ x. is_awaiting x.deployment_status) (sym same),
      rw (accepted, policy, committed) (ap (λ x. next (at_time later x)) same),
    )

create-next :
    (a b : AgreementMetadata) (s s' : Agreements)
    → create a s ≡ (next b, s')
    → (a ≡ b) × (put a s ≡ s')
unfolding create created create_agreement
create-next a b s s' h = ground arith

create-stored :
    (a b : AgreementMetadata) (s : Agreements)
    → get_agreement_by_id a.id s ≡ some b
    → create a s ≡ (failed "Agreement metadata already exists", s)
unfolding create created create_agreement
create-stored a b s h = rw h refl

-- A draft that is prepared is stored under its id and awaits its confirmation; preparing it again,
-- at any time, fails and leaves the store as it is.
pub prepare-once :
    (e : Ethers) (uuid : String → Bool) (commit : AgreementDraft → String → Option String)
    (now later : ℕ) (input : AgreementDraft) (s s' : Agreements) (a : AgreementMetadata)
    → prepare e uuid commit now input s ≡ (next a, s')
    → (get_agreement_by_id a.id s' ≡ some a)
      × (is_awaiting a.deployment_status ≡ true)
      × (prepare e uuid commit later input s' ≡ (failed "Agreement metadata already exists", s'))
unfolding prepare ◌>>=◌
prepare-once e uuid commit now later input s s' a h =
    let (b, prepared, h1) = lift-eq-next (prepared_agreement e uuid commit now input) create s h in
    let (same, stored) = create-next b a s s' h1 in
    let prepared' = prepared ∙ ap (λ x. next x) same in
    let (awaits, again) = prepared_agreement-later e uuid commit now later input a prepared' in
    let there =
      ap (λ x. get_agreement_by_id a.id x) (sym stored ∙ ap (λ x. put x s) same)
      ∙ get-put a a.id s refl in
    (there, awaits, rw again (create-stored (at_time later a) a s' there))
