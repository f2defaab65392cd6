-- ===== src/Attestcoin/Proof/Composed.antt =====
-- The proof service as the verifier's `CryptographicProofVerifier`: live-verifier.ts builds
-- `AttestcoinVerifier` over `AttestcoinService` in this way.
pub mod Examples
use veyronis.Prelude.{[], ◌≡◌, sym, ap}
use mathlib.Core.List.{Memᴰ}
use veyronis.Prelude.Flow.{Flow, next, next-injective, or_throw-eq-next, require-eq-next}
use veyronis.Ethers.{Ethers}
use veyronis.Attestcoin.{
  AttestcoinProofRequest, VerifiedSourceTransaction, VerifiedEvidenceClaim, ConditionSubmissionMode,
  InterpretedEvidence, Failure,
}
use veyronis.Attestcoin.Verifier.Interfaces.{Services, Trace, Call, submit}
use veyronis.Attestcoin.Verifier.Safety.{IsPermitted, Authorized, ClaimFits}
use veyronis.Attestcoin.Verifier.Submissions.{verify_and_submit-calls}
use veyronis.Attestcoin.Commitment.{same_hex, compute_evidence_commitment}
use veyronis.Attestcoin.Verifier.Checks.{make_claim}
use veyronis.Attestcoin.Verifier.{verify_and_submit}
use veyronis.Attestcoin.Proof.{AppConfig, Providers}
use veyronis.Attestcoin.Proof.Leaf.{Coder}
use veyronis.Attestcoin.Proof.Service.{verify}
use veyronis.Attestcoin.Proof.Proved.{IsProved, verify-IsProved}
use veyronis.Prelude.{All-mem}

module _ (e : Ethers) (request : AttestcoinProofRequest) where
  -- A claim is about the transaction that it was made for.
  make_claim-eqs :
      (tx : VerifiedSourceTransaction) (ev : InterpretedEvidence) (claim : VerifiedEvidenceClaim)
      → make_claim e request tx ev ≡ next claim
      → (claim.source_chain_key ≡ tx.source_chain_key)
        × (claim.source_transaction_hash ≡ tx.source_transaction_hash)
  unfolding make_claim
  make_claim-eqs tx ev claim h =
      let (commitment, _, h1) =
        or_throw-eq-next
          (compute_evidence_commitment e request.evidence_policy_commitment ev.evidence_type
            tx.source_chain_key tx.source_transaction_hash ev.subject)
          _ h in
      let (_, h2) = require-eq-next (same_hex commitment request.evidence_commitment) _ _ h1 in
      let (escrow, _, h3) = or_throw-eq-next (e.get_address request.escrow_address) _ h2 in
      let (subject, _, h4) = or_throw-eq-next (e.get_address ev.subject) _ h3 in
      let made = next-injective h4 in
      (sym (ap (λ c. c.source_chain_key) made), sym (ap (λ c. c.source_transaction_hash) made))

module _ {World : Type 0} (e : Ethers) (coder : Coder) (config : AppConfig)
    (providers : Providers World) (world : Trace → World) (others : Services) where
  -- The verifier's services with the proofs of this one, asked in the world that the calls made so
  -- far have left.
  abbrev pub live_services : Services
  live_services = record others {
    verify = λ t request. (verify e coder config providers request (world t)).0;
  }

  answered :
      (r : Flow Failure VerifiedSourceTransaction × World) (tx : VerifiedSourceTransaction)
      → r.0 ≡ next tx
      → r ≡ (next tx, r.1)
  answered (a, w) tx h = ap (λ x. (x, w)) h

  -- Every claim that the verifier submits to the registry, from an empty trace on, is about a
  -- transaction that the proof service proved for the request: one that Creditcoin's block prover
  -- accepted, in an attested block of the source chain, with the request's chain key and hash. This
  -- hash is that of the transaction in the accepted bytes.
  pub verify_and_submit-IsProved :
      (request : AttestcoinProofRequest) (mode : ConditionSubmissionMode)
      (claim : VerifiedEvidenceClaim)
      → Memᴰ (submit mode claim) (verify_and_submit e live_services request []).1
      → (tx : VerifiedSourceTransaction) × IsProved e coder config providers request tx
        × (claim.source_chain_key ≡ tx.source_chain_key)
        × (claim.source_transaction_hash ≡ tx.source_transaction_hash)
  verify_and_submit-IsProved request mode claim m =
      let (right_mode, authorized) =
        All-mem (IsPermitted e live_services request) _
          (verify_and_submit-calls e live_services request [] tt) m in
      let fits = authorized.claim_fits in
      let w = world fits.before in
      let (key, hash) = make_claim-eqs e request fits.tx fits.evidence claim fits.made in
      (
        fits.tx,
        verify-IsProved e coder config providers request w
            (verify e coder config providers request w).1 fits.tx (answered _ fits.tx fits.proved),
        key,
        hash,
      )
