-- ===== src/Condition/Repository/Latest.antt =====
-- Which verification `latestVerification` of
-- backend/src/agreements/agreement-condition-repository.ts returns.
use veyronis.Prelude.{
  ℕ, ◌≤◌, String, ◌≡◌, refl, inl, inr, Bool, none, some, [], ◌∷◌, arith, All, Option-cases,
  Bool-cases, ltb, mem-filter, filter-mem, All-mem, subst, filter,
}
use veyronis.Condition.{AgreementConditionVerification}
use veyronis.Condition.Repository.{Store, latest, latest_verification}
use mathlib.Core.List.{Memᴰ}
use text.Mathlib.Text.{◌==◌}
use text.Mathlib.TextEquality.{eq_iff}

abbrev pub IsLatest : AgreementConditionVerification → Store → Type 0
IsLatest v store = Memᴰ v store × All (λ w. w.submitted_at ≤ v.submitted_at) store

AtMost-mono :
    (m n : ℕ) (store : Store)
    → m ≤ n
    → All (λ w. w.submitted_at ≤ m) store
    → All (λ w. w.submitted_at ≤ n) store
AtMost-mono m n [] le a = tt
AtMost-mono m n (w ∷ store) le (a, b) = (omega arith, AtMost-mono m n store le b)

latest-none : (store : Store) → latest store ≡ none → store ≡ []
unfolding latest
latest-none [] h = refl
latest-none (v ∷ store) h = ground arith

latest-IsLatest :
    (store : Store) (v : AgreementConditionVerification) → latest store ≡ some v → IsLatest v store
unfolding latest
latest-IsLatest [] v h = cc
latest-IsLatest (w ∷ store) v h = elim (Option-cases (latest store)) [
  | inl e ↦
      let same : w ≡ v = ground arith in
      let empty = latest-none store e in rw (← same, empty) (Memᴰ.head refl, (omega arith, tt))
  | inr (u, e) ↦
      let (m, a) = latest-IsLatest store u e in
      elim (Bool-cases (ltb w.submitted_at u.submitted_at)) [
        | inl t ↦
            let same : u ≡ v = ground arith in
            subst (λ x. IsLatest x (w ∷ store)) same (Memᴰ.tail m, (ground arith, a))
        | inr f ↦
            let same : w ≡ v = ground arith in
            subst (λ x. IsLatest x (w ∷ store)) same
              (Memᴰ.head refl, (ground arith, AtMost-mono _ _ store (ground arith) a))
      ]
]

abbrev belongs : String → AgreementConditionVerification → Bool
belongs agreement_id v = v.agreement_id == agreement_id

-- The verification returned for an agreement is a stored one of that agreement, and none of that
-- agreement was submitted later.
pub latest_verification-IsLatest :
    (agreement_id : String) (store : Store) (v : AgreementConditionVerification)
    → latest_verification agreement_id store ≡ some v
    → (v.agreement_id ≡ agreement_id)
      × Memᴰ v store
      × ((w : AgreementConditionVerification)
          → Memᴰ w store
          → w.agreement_id ≡ agreement_id
          → w.submitted_at ≤ v.submitted_at)
unfolding latest_verification
latest_verification-IsLatest agreement_id store v h =
    let of = belongs agreement_id in
    let (m, a) = latest-IsLatest (filter of store) v h in
    let (there, passes) = mem-filter of store m in
    (
      (eq_iff v.agreement_id agreement_id).0 passes,
      there,
      λ w k e.
          All-mem (λ u. u.submitted_at ≤ v.submitted_at) (filter of store) a
            (filter-mem of store k ((eq_iff w.agreement_id agreement_id).1 e)),
    )
