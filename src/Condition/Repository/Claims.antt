-- ===== src/Condition/Repository/Claims.antt =====
-- How the store of backend/src/agreements/agreement-condition-repository.ts lets one attempt at a
-- time verify a transaction.
use veyronis.Prelude.{
  ℕ, ◌-◌, ◌<◌, String, ◌≡◌, ◌≢◌, refl, sym, ap, ◌∙◌, inl, inr, Bool, true, false, ◌&&◌, Option,
  none, some, [], ◌∷◌, arith, leb, subst, find, find-eq-some, All, Bool-cases,
}
use veyronis.Prelude.Text.{to_lower_case}
use veyronis.Shared.Chain.{verification_in_progress}
use veyronis.Condition.{AgreementConditionVerification}
use veyronis.Condition.Repository.{
  Store, AgreementConditionVerificationRecord, stored_of, find_verification, set, restart, keeps,
  start_existing, start_verification, AgreementConditionVerificationStart,
  AgreementConditionVerificationUpdate, start_found, update_found, update_verification,
  apply_update, stale_timeout, is_stale_verification, is_for,
}
use text.Mathlib.Text.{◌==◌}
use text.Mathlib.TextEquality.{eq_iff}

-- No entry has this id.
abbrev pub IsFresh : String → Store → Type 0
IsFresh id store = All (λ v. v.id ≢ id) store

-- The keys of the map are distinct.
abbrev pub HasDistinctIds : Store → Type 0
HasDistinctIds [] = Unit
HasDistinctIds (v ∷ store) = IsFresh v.id store × HasDistinctIds store

module _ (p : AgreementConditionVerification → Bool) where
  IsFresh-find :
      (id : String) (store : Store) (v : AgreementConditionVerification)
      → IsFresh id store
      → find p store ≡ some v
      → v.id ≢ id
  unfolding find
  IsFresh-find id [] v fresh h = cc
  IsFresh-find id (w ∷ store) v (other, fresh) h = elim (Bool-cases (p w)) [
    | inl t ↦ let e : w ≡ v = ground arith in rw (← e) other
    | inr f ↦ IsFresh-find id store v fresh (rw f at h)
  ]

  -- An entry that `find` returns is found again where another of its id takes its place.
  find-set :
      (store : Store) (v w : AgreementConditionVerification)
      → HasDistinctIds store
      → find p store ≡ some v
      → v.id ≡ w.id
      → p w ≡ true
      → find p (set w store) ≡ some w
  unfolding find set
  find-set [] v w distinct h same passes = cc
  find-set (x ∷ store) v w (fresh, distinct) h same passes = elim (Bool-cases (p x)) [
    | inl t ↦ let e : x ≡ v = ground arith in ground (arith, eq_iff x.id w.id, e)
    | inr f ↦
        let found : find p store ≡ some v = ground arith in
        let rest = find-set store v w distinct found same passes in
        let other = IsFresh-find x.id store v fresh found in ground (arith, eq_iff x.id w.id)
  ]

  -- A new entry is found where there was none.
  find-set-new :
      (store : Store) (w : AgreementConditionVerification)
      → IsFresh w.id store
      → find p store ≡ none
      → p w ≡ true
      → find p (set w store) ≡ some w
  unfolding find set
  find-set-new [] w fresh h passes = ground arith
  find-set-new (x ∷ store) w (other, fresh) h passes =
      let rest = find-set-new store w fresh in ground (arith, eq_iff x.id w.id)

IsFresh-set :
    (id : String) (v : AgreementConditionVerification) (store : Store)
    → id ≢ v.id
    → IsFresh id store
    → IsFresh id (set v store)
unfolding set
IsFresh-set id v [] other fresh = (λ e. other (sym e), tt)
IsFresh-set id v (w ∷ store) other (here, fresh) = elim (Bool-cases (w.id == v.id)) [
  | inl t ↦ rw t (λ e. other (sym e), fresh)
  | inr f ↦ rw f (here, IsFresh-set id v store other fresh)
]

set-HasDistinctIds :
    (v : AgreementConditionVerification) (store : Store)
    → HasDistinctIds store
    → HasDistinctIds (set v store)
unfolding set
set-HasDistinctIds v [] distinct = (tt, tt)
set-HasDistinctIds v (w ∷ store) (fresh, distinct) = elim (Bool-cases (w.id == v.id)) [
  | inl t ↦
      let same : w.id ≡ v.id = (eq_iff w.id v.id).0 t in
      rw t (subst (λ i. IsFresh i store) same fresh, distinct)
  | inr f ↦
      let other : w.id ≢ v.id = λ e. ground (arith, (eq_iff w.id v.id).1 e) in
      rw f (IsFresh-set w.id v store other fresh, set-HasDistinctIds v store distinct)
]

start_found-HasDistinctIds :
    (r : AgreementConditionVerificationRecord) (store : Store)
    (o : Option AgreementConditionVerification)
    → HasDistinctIds store
    → HasDistinctIds (start_found r store o).1
unfolding start_found start_existing
start_found-HasDistinctIds r store none distinct = set-HasDistinctIds (stored_of r) store distinct
start_found-HasDistinctIds r store (some v) distinct = elim (Bool-cases (keeps v r.updated_at)) [
  | inl t ↦ rw t distinct
  | inr f ↦ rw f (set-HasDistinctIds (restart v r.updated_at) store distinct)
]

update_found-HasDistinctIds :
    (u : AgreementConditionVerificationUpdate) (store : Store)
    (o : Option AgreementConditionVerification)
    → HasDistinctIds store
    → HasDistinctIds (update_found u store o).1
unfolding update_found
update_found-HasDistinctIds u store none distinct = distinct
update_found-HasDistinctIds u store (some v) distinct =
    set-HasDistinctIds (apply_update v u) store distinct

-- Starting a verification and updating one keep the ids of the store distinct.
operations-HasDistinctIds :
    (store : Store)
    → HasDistinctIds store
    → ((r : AgreementConditionVerificationRecord) → HasDistinctIds (start_verification r store).1)
      × ((id : String) (u : AgreementConditionVerificationUpdate)
          → HasDistinctIds (update_verification id u store).1)
unfolding start_verification update_verification
operations-HasDistinctIds store distinct = (
  λ r. start_found-HasDistinctIds r store _ distinct,
  λ id u. update_found-HasDistinctIds u store _ distinct,
)

find_verification-same :
    (a a' h h' : String) (store : Store)
    → a' ≡ a
    → to_lower_case h' ≡ to_lower_case h
    → find_verification a' h' store ≡ find_verification a h store
unfolding find_verification
find_verification-same a a' h h' store same lower =
    ap
      (λ a.
        find (λ v. v.agreement_id == a && to_lower_case v.transaction_hash == to_lower_case h')
          store)
      same
    ∙ ap (λ l. find (λ v. v.agreement_id == a && to_lower_case v.transaction_hash == l) store) lower

restart-id : (v : AgreementConditionVerification) (now : ℕ) → v.id ≡ (restart v now).id
unfolding restart
restart-id v now = refl

restart-is_for :
    (a h : String) (v : AgreementConditionVerification) (now : ℕ)
    → is_for a h v ≡ true
    → is_for a h (restart v now) ≡ true
unfolding restart
restart-is_for a h v now e = e

left_by :
    (r : AgreementConditionVerificationRecord) (store store' : Store)
    (v w : AgreementConditionVerification)
    → find_verification r.agreement_id r.transaction_hash store ≡ some v
    → (v.status ≡ verification_in_progress) × (v.updated_at ≡ r.updated_at)
    → store ≡ store'
    → v ≡ w
    → (find_verification r.agreement_id r.transaction_hash store' ≡ some w)
      × (w.status ≡ verification_in_progress)
      × (w.updated_at ≡ r.updated_at)
left_by r store store' v w found (status, updated) same same' =
    rw (← same, ← same') (found, status, updated)

start_found-claimed :
    (r : AgreementConditionVerificationRecord) (store store' : Store)
    (o : Option AgreementConditionVerification) (first : AgreementConditionVerificationStart)
    → HasDistinctIds store
    → IsFresh r.id store
    → find_verification r.agreement_id r.transaction_hash store ≡ o
    → start_found r store o ≡ (first, store')
    → first.claimed ≡ true
    → (find_verification r.agreement_id r.transaction_hash store' ≡ some first.verification)
      × (first.verification.status ≡ verification_in_progress)
      × (first.verification.updated_at ≡ r.updated_at)
unfolding start_found start_existing find_verification restart
start_found-claimed r store store' none first distinct fresh looked h claimed =
    let p = is_for r.agreement_id r.transaction_hash in
    let passes : p (stored_of r) ≡ true = ground (
      arith,
      (eq_iff r.agreement_id r.agreement_id).1 refl,
      (eq_iff (to_lower_case r.transaction_hash) (to_lower_case r.transaction_hash)).1 refl,
    ) in
    let found = find-set-new p store (stored_of r) fresh looked passes in
    left_by r _ store' _ first.verification found (refl, refl) (ap (λ x. x.1) h)
      (ap (λ x. x.0.verification) h)
start_found-claimed r store store' (some v) first distinct fresh looked h claimed =
    let p = is_for r.agreement_id r.transaction_hash in
    let passes =
      restart-is_for r.agreement_id r.transaction_hash v r.updated_at
        (find-eq-some p store looked).1 in
    let found =
      find-set p store v (restart v r.updated_at) distinct looked (restart-id v r.updated_at)
        passes in
    let free : keeps v r.updated_at ≡ false = ground arith in
    let h' = rw free at h in
    left_by r _ store' _ first.verification found (refl, refl) (ap (λ x. x.1) h')
      (ap (λ x. x.0.verification) h')

start_found-held :
    (r : AgreementConditionVerificationRecord) (store : Store) (v : AgreementConditionVerification)
    → v.status ≡ verification_in_progress
    → ((start_found r store (some v)).0.claimed ≡ leb stale_timeout (r.updated_at - v.updated_at))
      × (r.updated_at - v.updated_at < stale_timeout
          → start_found r store (some v) ≡ (record { verification = v; claimed = false }, store))
unfolding start_found start_existing keeps is_stale_verification
start_found-held r store v status = (ground arith, λ l. ground arith)

-- When an attempt has claimed a transaction for an agreement, a second attempt at the same
-- transaction, in any case of its letters, is given that verification and claims it only once
-- five minutes have passed; until then the store stays as it is.
pub start_verification-exclusive :
    (r r' : AgreementConditionVerificationRecord) (store store' : Store)
    (first : AgreementConditionVerificationStart)
    → HasDistinctIds store
    → IsFresh r.id store
    → start_verification r store ≡ (first, store')
    → first.claimed ≡ true
    → r'.agreement_id ≡ r.agreement_id
    → to_lower_case r'.transaction_hash ≡ to_lower_case r.transaction_hash
    → ((start_verification r' store').0.claimed ≡ leb stale_timeout (r'.updated_at - r.updated_at))
      × (r'.updated_at - r.updated_at < stale_timeout
          → start_verification r' store'
            ≡ (record { verification = first.verification; claimed = false }, store'))
unfolding start_verification
start_verification-exclusive r r' store store' first distinct fresh h claimed same lower =
    let (found, status, updated) =
      start_found-claimed r store store' _ first distinct fresh refl h claimed in
    let found' =
      find_verification-same r.agreement_id r'.agreement_id r.transaction_hash r'.transaction_hash
        store' same lower
      ∙ found in
    let held = start_found-held r' store' first.verification status in rw (found', ← updated) held
