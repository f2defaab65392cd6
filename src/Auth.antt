-- ===== src/Auth.antt =====
-- backend/src/auth/wallet-auth.ts: challenges that a wallet signs, and the sessions that it gets for
-- them. Node's crypto, Buffer, JSON and Date are a record of functions, as is the recovery of a
-- signature's address by the ethers package. `this.now()` and the random nonce are arguments, one
-- for each call of the clock.
pub mod Session
pub mod Cookie
pub mod Examples
pub mod Challenges
pub mod Login
use veyronis.Prelude.{
  ℕ, String, Bool, true, false, List, [], ◌∷◌, Option, none, some, ◌+◌, ◌*◌, leb, ltb, not, length,
  find, filter, if◌then◌else◌,
}
use Prim.Native.String.{◌++◌}
use veyronis.Prelude.Text.{to_lower_case}
use veyronis.Prelude.Flow.{Flow, next, failed, or_throw}
use veyronis.Prelude.Flow.Run.{Run, pure, lift, require, ◌>>=◌, ◌>>◌}
use veyronis.Ethers.{Ethers}
use text.Mathlib.Text.{◌==◌}

pub record WalletSession : Type 0 where
  pub address : String
  pub expires_at : ℕ

-- What the service takes from its platform. `none` is a call that throws, and a text that does not
-- hold a session.
pub record Platform : Type 0 where
  -- `new Date(n).toISOString()`.
  pub iso : ℕ → String
  -- `verifyMessage(message, signature)`, the address that signed.
  pub verify_message : String → String → Option String
  pub stringify : WalletSession → String
  pub parse : String → Option WalletSession
  -- `Buffer.from(s).toString("base64url")`, and back.
  pub to_base64url : String → String
  pub of_base64url : String → String
  -- `createHmac("sha256", secret).update(payload).digest("hex")`.
  pub hmac : String → String → String
  -- `Buffer.from(s, "hex")`.
  pub of_hex : String → List ℕ

-- An entry of the map of challenges, under the lower-case address.
pub record Challenge : Type 0 where
  pub key : String
  pub message : String
  pub expires_at : ℕ

abbrev pub Challenges : Type 0
Challenges = List Challenge

-- What `createChallenge` returns.
pub record IssuedChallenge : Type 0 where
  pub address : String
  pub message : String
  pub expires_at : String

-- `map.get`, `map.delete`, and `map.set`, which keeps the place of a key that it has.
unfoldable pub get : String → Challenges → Option Challenge
get key s = find (λ c. c.key == key) s

unfoldable pub delete : String → Challenges → Challenges
delete key s = filter (λ c. not (c.key == key)) s

unfoldable pub set : Challenge → Challenges → Challenges
set c [] = c ∷ []
set c (d ∷ s) = let rest = set c s in if d.key == c.key then c ∷ s else d ∷ rest

unfoldable pub prune_challenges : ℕ → Challenges → Challenges
prune_challenges now s = filter (λ c. not (leb c.expires_at now)) s

-- The first key is the oldest.
abbrev pub drop_first : Challenges → Challenges
drop_first [] = []
drop_first (c ∷ s) = s

unfoldable pub make_room : Challenges → Challenges
make_room s = if leb 1000 (length s) then drop_first s else s

unfoldable pub challenge_message : Platform → String → String → ℕ → String
challenge_message p address nonce expires_at =
    "Veyronis wallet authentication\n\nAddress: "
    ++ (address
        ++ ("\nNonce: "
            ++ (nonce
                ++ ("\nExpires: "
                    ++ (p.iso expires_at
                        ++ "\n\nThis signature does not authorize a blockchain transaction.")))))

unfoldable pub pending : ℕ → Option Challenge → Flow String Challenge
pending now none = failed "Challenge expired"
pending now (some c) = if ltb c.expires_at now then failed "Challenge expired" else next c

module _ (e : Ethers) (p : Platform) where
  abbrev pub challenge_for : String → String → ℕ → Challenge
  challenge_for address nonce expires_at = record {
    key = to_lower_case address;
    message = challenge_message p address nonce expires_at;
    expires_at = expires_at;
  }

  unfoldable pub store_challenge : String → String → ℕ → ℕ → Run Challenges String IssuedChallenge
  unfolding set make_room prune_challenges
  store_challenge address nonce expires_at now s = (
    next (record {
      address = address;
      message = challenge_message p address nonce expires_at;
      expires_at = p.iso expires_at;
    }),
    set (challenge_for address nonce expires_at) (make_room (prune_challenges now s)),
  )

  -- The clock is read for the expiry, and again to prune.
  unfoldable pub create_challenge : String → String → ℕ → ℕ → Run Challenges String IssuedChallenge
  unfolding store_challenge
  create_challenge input nonce now later = do
    address ← lift (or_throw (e.get_address input))
    store_challenge address nonce (now + 5 * 60000) later

  unfoldable pub read_pending : String → ℕ → Run Challenges String Challenge
  unfolding pending get
  read_pending key now s = (pending now (get key s), s)

  unfoldable pub remove : String → Run Challenges String (Unit {0})
  unfolding delete
  remove key s = (next tt, delete key s)

  module _ (secret : String) where
    unfoldable pub sign : String → String
    sign payload = p.hmac secret payload

    unfoldable pub issue_session : String → ℕ → String
    unfolding sign
    issue_session address now =
        let payload =
          p.to_base64url
            (p.stringify (record { address = address; expires_at = now + 8 * 60 * 60000 })) in
        payload ++ ("." ++ sign payload)

    unfoldable pub verify : String → String → ℕ → ℕ → Run Challenges String String
    unfolding read_pending remove issue_session
    verify input signature now later = do
      address ← lift (or_throw (e.get_address input))
      challenge ← read_pending (to_lower_case address) now
      signer ← lift (or_throw (p.verify_message challenge.message signature))
      recovered ← lift (or_throw (e.get_address signer))
      require (recovered == address) "Signature mismatch"
      remove (to_lower_case address)
      pure (issue_session address later)
