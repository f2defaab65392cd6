-- ===== src/Attestcoin/Proof.antt =====
-- backend/src/attestcoin/attestcoin-service.ts and proof-provider.ts: the steps by which a source
-- transaction becomes a verified one. The source-chain provider, the Creditcoin precompiles and the
-- proof builder are packages and services, so they are a record of calls over a state of any type
-- (`World`): a call may answer in any way, may reject (`none`) and may change the world, which
-- also holds what happens between two calls. The logger is left out.

pub mod Leaf
pub mod Service
pub mod Source
pub mod Inclusion
pub mod Proved
pub mod Composed
pub mod Examples
use veyronis.Prelude.{
  ℕ, String, Bool, List, Option, none, some, ◌+◌, ◌*◌, ◌-◌, if◌then◌else◌, ◌&&◌, ◌==◌, ◌≡◌, refl,
  true, ap,
}
use veyronis.Prelude.Text.{is_digit, lower_char, truthy}
use veyronis.Prelude.Flow.{next, or_throw, or_fail, or_throw-next, or_fail-next}
use veyronis.Prelude.Flow.Run.{Run, ◌>>=◌, bind-eq-next}
use veyronis.Attestcoin.{Failure}
use Prim.Native.Char.{Char, code}

pub record SourceTransaction : Type 0 where
  pub block_number : Option ℕ

pub record SourceReceipt : Type 0 where
  pub block_number : Option ℕ
  pub status : Option ℕ

pub record SourceBlock : Type 0 where
  pub number : Option ℕ

pub record SupportedChain : Type 0 where
  pub chain_key : ℕ
  pub chain_id : ℕ

pub record LatestAttested : Type 0 where
  pub exists : Bool
  pub height : ℕ

-- `AttestcoinProof`, the proof builder's `ContinuityResponse`. The proofs themselves are only
-- handed on.
pub record AttestcoinProof : Type 0 where
  pub chain_key : ℕ
  pub header_number : ℕ
  pub tx_hash : String
  pub tx_index : ℕ
  pub tx_bytes : String
  pub merkle_proof : String
  pub continuity_proof : String

-- The SDK builder's response, with every field that it may leave out.
pub record BuilderResponse : Type 0 where
  pub success : Bool
  pub response_data : Option AttestcoinProof
  pub error : Option String

pub data AttestcoinProofResult : Type 0 where
  succeeded : AttestcoinProof → AttestcoinProofResult
  unsuccessful : Option String → AttestcoinProofResult

unfoldable pub usable : Bool → Option AttestcoinProof → Option String → AttestcoinProofResult
usable true (some p) error = succeeded p
usable _ _ error = unsuccessful (truthy error)

-- `SdkAttestcoinProofProvider.getProof`, after the builder's answer.
unfoldable pub get_proof_result : BuilderResponse → AttestcoinProofResult
unfolding usable
get_proof_result r = usable r.success r.response_data r.error

pub record AppConfig : Type 0 where
  pub sepolia_chain_key : ℕ
  pub attestation_poll_interval_ms : ℕ
  pub attestation_wait_timeout_ms : ℕ
  pub proof_builder_wait_timeout_ms : ℕ

-- A call of a provider: it answers or rejects, and leaves the world that it found or another.
abbrev pub Asking : Type 0 → Type 0 → Type 0
Asking World A = World → Option A × World

pub record Providers (World : Type 0) : Type 0 where
  pub source_chain_id : Asking World ℕ
  pub get_transaction : String → Asking World (Option SourceTransaction)
  pub get_transaction_receipt : String → Asking World (Option SourceReceipt)
  pub get_block : ℕ → Asking World (Option SourceBlock)
  pub creditcoin_chain_id : Asking World ℕ
  pub get_supported_chains : Asking World (List SupportedChain)
  pub get_latest_attested : ℕ → Asking World LatestAttested
  -- The key, the height, the poll interval, the timeout and the extra delay.
  pub wait_until_height_attested : ℕ → ℕ → ℕ → ℕ → ℕ → Asking World (Unit {0})
  -- The same of the proof builder, where it has it.
  pub builder_wait : Option (ℕ → ℕ → ℕ → ℕ → ℕ → Asking World (Unit {0}))
  pub builder_get_proof : String → Asking World BuilderResponse
  pub compute_transaction_index : String → Asking World ℕ
  pub verify_single : ℕ → ℕ → String → String → String → Asking World Bool

module _ {World A : Type 0} where
  -- `await call()`.
  unfoldable pub ask : Asking World A → Run World Failure A
  ask call w = let (o, v) = call w in (or_throw o, v)

  -- `try { await call() } catch { return failure }`.
  unfoldable pub ask_or : Asking World A → Failure → Run World Failure A
  ask_or call f w = let (o, v) = call w in (or_fail o f, v)

  -- A call that answered.
  pub record Answered (call : Asking World A) (a : A) : Type 0 where
    pub at : World
    pub answer : (call at).0 ≡ some a

module _ {World A B : Type 0} (call : Asking World A) (f : A → Run World Failure B) (w : World)
    {b : B} {t : World} where
  -- A block that went on to its end had an answer to each of its calls.
  pub ask-eq-next :
      (ask call >>= f) w ≡ (next b, t)
      → (a : A) × (v : World) × Answered call a × (f a v ≡ (next b, t))
  unfolding ask
  ask-eq-next h =
      let (a, v, called, rest) = bind-eq-next (ask call) f w h in
      (a, v, record { at = w; answer = or_throw-next (call w).0 (ap (λ x. x.0) called) }, rest)

  pub ask_or-eq-next :
      (fault : Failure)
      → (ask_or call fault >>= f) w ≡ (next b, t)
      → (a : A) × (v : World) × Answered call a × (f a v ≡ (next b, t))
  unfolding ask_or
  ask_or-eq-next fault h =
      let (a, v, called, rest) = bind-eq-next (ask_or call fault) f w h in
      (a, v, record { at = w; answer = or_fail-next (call w).0 fault (ap (λ x. x.0) called) }, rest)

-- `/status code '?(\d{3})'?/i`, at the front of a text.
unfoldable pub after_prefix : String → String → Option String
after_prefix String.[] s = some s
after_prefix (String.◌∷◌ c p) String.[] = none
after_prefix (String.◌∷◌ c p) (String.◌∷◌ d s) =
    let rest = after_prefix p s in if code c == code (lower_char d) then rest else none

unfoldable pub after_quote : String → String
after_quote String.[] = String.[]
after_quote (String.◌∷◌ c s) = if code c == b'\'' then s else String.◌∷◌ c s

digit_of : Char → ℕ
digit_of c = code c - 48

unfoldable pub three_digits : String → Option ℕ
unfolding digit_of
three_digits (String.◌∷◌ a (String.◌∷◌ b (String.◌∷◌ c s))) =
    if is_digit a && is_digit b && is_digit c
    then some (digit_of a * 100 + digit_of b * 10 + digit_of c)
    else none
three_digits _ = none

abbrev code_after : Option String → Option ℕ
code_after none = none
code_after (some s) = three_digits (after_quote s)

abbrev first_of : Option ℕ → Option ℕ → Option ℕ
first_of (some n) o = some n
first_of none o = o

-- The first place where it stands.
unfoldable pub status_code_in : String → Option ℕ
unfolding after_prefix after_quote three_digits
status_code_in String.[] = none
status_code_in (String.◌∷◌ c s) =
    let rest = status_code_in s in
    first_of (code_after (after_prefix "status code " (String.◌∷◌ c s))) rest

unfoldable pub proof_provider_status_code : Option String → Option ℕ
unfolding status_code_in
proof_provider_status_code none = none
proof_provider_status_code (some error) = status_code_in error

status_code_test : proof_provider_status_code (some "Status code '404'") ≡ some 404
unfolding proof_provider_status_code lower_char
status_code_test = refl
