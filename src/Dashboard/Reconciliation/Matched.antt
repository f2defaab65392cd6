-- ===== src/Dashboard/Reconciliation/Matched.antt =====
-- When the reconciliation of backend/src/agreements/reconciliation-service.ts finds a match.
use veyronis.Prelude.{
  String, ◌≡◌, ◌≢◌, ◌↔◌, refl, ap, ◌∙◌, some, List, [], ◌∷◌, ◌++◌, arith, length,
}
use veyronis.Prelude.Flow.{next, bind-eq-next, or_throw-eq-next, or_fail-eq-next}
use veyronis.Prelude.Text.{to_lower_case, truthy}
use veyronis.Ethers.{Ethers}
use veyronis.Shared.Agreement.{AgreementMetadata}
use veyronis.Shared.Chain.{AgreementChainSnapshot}
use veyronis.Dashboard.Reconciliation.{
  AgreementContractReader, Reconciled, matched, compare, compare_address, mismatches_of, status_of,
  reconcile,
}
use text.Mathlib.TextEquality.{eq_iff}

-- Two texts that name one address.
abbrev pub OneAddress : Ethers → String → String → Type 0
OneAddress e a b = (c : String) × (e.get_address a ≡ some c) × (e.get_address b ≡ some c)

abbrev pub OneText : String → String → Type 0
OneText a b = to_lower_case a ≡ to_lower_case b

-- The stored terms and the contract's agree in each of the seven fields.
pub record Agrees (e : Ethers) (m : AgreementMetadata) (escrow : String)
    (s : AgreementChainSnapshot) : Type 0 where
  pub escrow_address : OneAddress e escrow s.escrow_address
  pub buyer : OneAddress e m.buyer s.buyer
  pub seller : OneAddress e m.seller s.seller
  pub arbitrator : OneAddress e m.arbitrator s.arbitrator
  pub required_amount : OneText m.required_amount s.required_amount
  pub agreement_commitment : OneText m.agreement_commitment s.agreement_commitment
  pub evidence_policy_commitment : OneText m.evidence_policy_commitment s.evidence_policy_commitment

append-length : (xs : List String) (x : String) → length (xs ++ (x ∷ [])) ≢ 0
append-length [] x = omega arith
append-length (y ∷ xs) x = omega arith

compare-empty :
    (ms : List String) (field a b : String)
    → (length (compare ms field a b) ≡ 0) ↔ ((length ms ≡ 0) × OneText a b)
unfolding compare
compare-empty ms field a b =
    ground (arith, eq_iff (to_lower_case a) (to_lower_case b), append-length ms field)

compare_address-next :
    (e : Ethers) (ms ms' : List String) (field a b : String)
    → compare_address e ms field a b ≡ next ms'
    → (length ms' ≡ 0) ↔ ((length ms ≡ 0) × OneAddress e a b)
unfolding compare_address
compare_address-next e ms ms' field a b h =
    let (m, ea, h1) = or_throw-eq-next (e.get_address a) _ h in
    let (c, eb, h2) = or_throw-eq-next (e.get_address b) _ h1 in
    let same = eq_iff m c in
    let long = append-length ms field in
    (
      λ k. (ground arith, (m, ea, eb ∙ ap some (ground arith))),
      λ (k, (d, x, y)). let mc : m ≡ c = ground arith in ground arith,
    )

mismatches_of-next :
    (e : Ethers) (m : AgreementMetadata) (escrow : String) (s : AgreementChainSnapshot)
    (ms : List String)
    → mismatches_of e m escrow s ≡ next ms
    → (length ms ≡ 0) ↔ Agrees e m escrow s
unfolding mismatches_of
mismatches_of-next e m escrow s ms h =
    let (m1, h1, k1) =
      bind-eq-next (compare_address e [] "escrow address" escrow s.escrow_address) _ h in
    let (m2, h2, k2) = bind-eq-next (compare_address e m1 "buyer" m.buyer s.buyer) _ k1 in
    let (m3, h3, k3) = bind-eq-next (compare_address e m2 "seller" m.seller s.seller) _ k2 in
    let (m4, h4, k4) =
      bind-eq-next (compare_address e m3 "arbitrator" m.arbitrator s.arbitrator) _ k3 in
    let x1 = compare_address-next e [] m1 "escrow address" escrow s.escrow_address h1 in
    let x2 = compare_address-next e m1 m2 "buyer" m.buyer s.buyer h2 in
    let x3 = compare_address-next e m2 m3 "seller" m.seller s.seller h3 in
    let x4 = compare_address-next e m3 m4 "arbitrator" m.arbitrator s.arbitrator h4 in
    let c5 = compare m4 "required amount" m.required_amount s.required_amount in
    let c6 = compare c5 "agreement commitment" m.agreement_commitment s.agreement_commitment in
    let y5 = compare-empty m4 "required amount" m.required_amount s.required_amount in
    let y6 =
      compare-empty c5 "agreement commitment" m.agreement_commitment s.agreement_commitment in
    let y7 =
      compare-empty c6 "evidence policy commitment" m.evidence_policy_commitment
        s.evidence_policy_commitment in
    (
      λ empty.
          let (z6, commitment) = y7.0 (ground arith) in
          let (z5, agreement) = y6.0 z6 in
          let (z4, amount) = y5.0 z5 in
          let (z3, arbitrator) = x4.0 z4 in
          let (z2, seller) = x3.0 z3 in
          let (z1, buyer) = x2.0 z2 in
          record {
            escrow_address = (x1.0 z1).1;
            buyer = buyer;
            seller = seller;
            arbitrator = arbitrator;
            required_amount = amount;
            agreement_commitment = agreement;
            evidence_policy_commitment = commitment;
          },
      λ a.
          let z4 =
            x4.1 (x3.1 (x2.1 (x1.1 (refl, a.escrow_address), a.buyer), a.seller), a.arbitrator) in
          let empty = y7.1 (
            y6.1 (y5.1 (z4, a.required_amount), a.agreement_commitment),
            a.evidence_policy_commitment,
          ) in
          ground arith,
    )

report-matched :
    (e : Ethers) (m : AgreementMetadata) (escrow : String) (s : AgreementChainSnapshot)
    (ms : List String) (r : Reconciled)
    → mismatches_of e m escrow s ≡ next ms
    → (s ≡ r.snapshot)
      × (ms ≡ r.reconciliation.mismatches)
      × (status_of ms ≡ r.reconciliation.status)
    → ((r.reconciliation.status ≡ matched) ↔ Agrees e m escrow r.snapshot)
      × ((r.reconciliation.status ≡ matched) ↔ (r.reconciliation.mismatches ≡ []))
unfolding status_of
report-matched e m escrow s ms r compared (seen, listed, status) =
    let agrees = mismatches_of-next e m escrow s ms compared in
    (
      (
        λ k. rw (← seen) (agrees.0 (ground arith)),
        λ k. let empty = agrees.1 (rw seen k) in ground arith,
      ),
      ground arith,
    )

-- A reconciliation that returns reports a match exactly when the stored terms agree with the
-- contract that it read: the four addresses as addresses, the amount and the two commitments in
-- any case of their letters.
pub reconcile-matched :
    (e : Ethers) (reader : AgreementContractReader) (m : AgreementMetadata) (participant : String)
    (r : Reconciled)
    → reconcile e reader m participant ≡ next r
    → (escrow : String) × (truthy m.escrow_address ≡ some escrow)
      × (reader.read escrow participant m.deployment_block_number ≡ some (r.snapshot, r.timeline))
      × ((r.reconciliation.status ≡ matched) ↔ Agrees e m escrow r.snapshot)
      × ((r.reconciliation.status ≡ matched) ↔ (r.reconciliation.mismatches ≡ []))
unfolding reconcile
reconcile-matched e reader m participant r h =
    let (escrow, there, h1) =
      or_fail-eq-next (truthy m.escrow_address) "Agreement is not deployed" _ h in
    let ((snapshot, timeline), read, h2) =
      or_throw-eq-next (reader.read escrow participant m.deployment_block_number) _ h1 in
    let (ms, compared, h3) = bind-eq-next (mismatches_of e m escrow snapshot) _ h2 in
    let (matches, listed) =
      report-matched e m escrow snapshot ms r compared (ground arith, ground arith, ground arith) in
    let seen : snapshot ≡ r.snapshot = ground arith in
    let times : timeline ≡ r.timeline = ground arith in
    (escrow, there, rw (← seen, ← times) read, matches, listed)
