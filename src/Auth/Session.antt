-- ===== src/Auth/Session.antt =====
-- `readSession` of backend/src/auth/wallet-auth.ts, and that it reads the sessions that are issued.
use veyronis.Prelude.{
  ℕ, ◌<◌, String, ◌≡◌, refl, sym, ap, ◌∙◌, Bool, true, false, ◌&&◌, List, [], ◌∷◌, Option, none,
  some, arith, ltb, if◌then◌else◌, ◌+◌, ◌*◌, Bool-cases, inl, inr, some-injective, and-eq-true,
}
use veyronis.Prelude as Prelude
use Prim.Native.String.{◌++◌}
use veyronis.Prelude.Text.{truthy}
use veyronis.Prelude.Text.Parts.{split, lacks, split-append}
use text.Mathlib.TextLemmas.{nil-append, cons-append}
use veyronis.Ethers.{Ethers}
use veyronis.Auth.{WalletSession, Platform, sign, issue_session}

-- `Buffer` equality: `a.length === b.length && timingSafeEqual(a, b)`.
unfoldable pub same_bytes : List ℕ → List ℕ → Bool
same_bytes [] [] = true
same_bytes [] (b ∷ bs) = false
same_bytes (a ∷ as') [] = false
same_bytes (a ∷ as') (b ∷ bs) = (Prelude.◌==◌ a b) && same_bytes as' bs

abbrev both : Option String → Option String → Option (String × String)
both (some a) (some b) = some (a, b)
both _ _ = none

-- `const [payload, signature] = token.split(".")`, none where either is missing or empty.
unfoldable pub token_parts : List String → Option (String × String)
token_parts (payload ∷ signature ∷ rest) = both (truthy (some payload)) (truthy (some signature))
token_parts _ = none

module _ (e : Ethers) (p : Platform) (secret : String) where
  abbrev with_address : WalletSession → Option String → Option WalletSession
  with_address session none = none
  with_address session (some address) = some (record session { address = address })

  -- What a payload holds, with everything that throws caught.
  unfoldable pub live_session : ℕ → Option WalletSession → Option WalletSession
  live_session now none = none
  live_session now (some session) =
      if ltb now session.expires_at
      then with_address session (e.get_address session.address)
      else none

  unfoldable pub read_parts : ℕ → Option (String × String) → Option WalletSession
  unfolding same_bytes live_session
  read_parts now none = none
  read_parts now (some (payload, signature)) =
      if same_bytes (p.of_hex signature) (p.of_hex (sign e p secret payload))
      then live_session now (p.parse (p.of_base64url payload))
      else none

  unfoldable pub read_token : ℕ → Option String → Option WalletSession
  unfolding read_parts token_parts
  read_token now none = none
  read_token now (some token) = read_parts now (token_parts (split b'.' token))

  unfoldable pub read_session : Option String → ℕ → Option WalletSession
  unfolding read_token
  read_session token now = read_token now (truthy token)

-- What the platform documents, for the payload of one session: base64url and JSON read back what
-- they wrote, their alphabets and that of a digest have no full stop, and no text is empty.
pub record IsLawful (p : Platform) (secret : String) (v : WalletSession) : Type 0 where
  pub base64url : p.of_base64url (p.to_base64url (p.stringify v)) ≡ p.stringify v
  pub json : p.parse (p.stringify v) ≡ some v
  pub payload_lacks : lacks b'.' (p.to_base64url (p.stringify v)) ≡ true
  pub payload_some :
      truthy (some (p.to_base64url (p.stringify v))) ≡ some (p.to_base64url (p.stringify v))
  pub digest_lacks : lacks b'.' (p.hmac secret (p.to_base64url (p.stringify v))) ≡ true
  pub digest_some :
      truthy (some (p.hmac secret (p.to_base64url (p.stringify v))))
      ≡ some (p.hmac secret (p.to_base64url (p.stringify v)))

same_bytes_refl : (bs : List ℕ) → same_bytes bs bs ≡ true
unfolding same_bytes
same_bytes_refl [] = refl
same_bytes_refl (b ∷ bs) = let rest = same_bytes_refl bs in ground arith

truthy-append : (s t : String) → truthy (some s) ≡ some s → truthy (some (s ++ t)) ≡ some (s ++ t)
truthy-append String.[] t h = cc
truthy-append (String.◌∷◌ c s) t h = rw (cons-append c s t) refl

abbrev pub lasting : String → ℕ → WalletSession
lasting address at = record { address = address; expires_at = at + 8 * 60 * 60000 }

module _ (e : Ethers) (p : Platform) (secret address : String) (at : ℕ)
    (lawful : IsLawful p secret (lasting address at)) where
  abbrev payload : String
  payload = p.to_base64url (p.stringify (lasting address at))

  abbrev digest : String
  digest = p.hmac secret payload

  issued_parts :
      token_parts (split b'.' (issue_session e p secret address at)) ≡ some (payload, digest)
  unfolding issue_session sign token_parts
  issued_parts =
      rw (cons-append "." String.[] digest, nil-append digest)
        (rw
          (
            split-append b'.' payload digest "." refl lawful.payload_lacks lawful.digest_lacks,
            lawful.payload_some,
            lawful.digest_some,
          )
          refl)

  issued_some :
      truthy (some (issue_session e p secret address at))
      ≡ some (issue_session e p secret address at)
  unfolding issue_session
  issued_some = truthy-append payload _ lawful.payload_some

  issued_read :
      (now : ℕ)
      → e.get_address address ≡ some address
      → read_token e p secret now (some (issue_session e p secret address at))
        ≡ (if ltb now (at + 28800000) then some (lasting address at) else none)
  unfolding read_token sign
  issued_read now checked =
      rw (issued_parts, same_bytes_refl, lawful.base64url, lawful.json, checked) refl

  -- A session that is issued to a checked address is read back from its token until eight hours
  -- have passed, and not from then on, on a platform whose base64url, JSON and digest keep their
  -- documented form for its payload.
  pub read_session-issue_session :
      (now : ℕ)
      → e.get_address address ≡ some address
      → read_session e p secret (some (issue_session e p secret address at)) now ≡ (
          if ltb now (at + 28800000)
          then some (record { address = address; expires_at = at + 28800000 })
          else none)
  unfolding read_session
  read_session-issue_session now checked = rw issued_some (issued_read now checked)

module _ (e : Ethers) (p : Platform) (secret : String) where
  -- The token's payload carries the service's own digest of it, and holds a session that has not
  -- expired.
  pub record IsSealed (token : String) (now : ℕ) (session : WalletSession) : Type 0 where
    pub payload : String
    pub signature : String
    pub parts : token_parts (split b'.' token) ≡ some (payload, signature)
    pub sealed : same_bytes (p.of_hex signature) (p.of_hex (sign e p secret payload)) ≡ true
    pub stored : WalletSession
    pub holds : p.parse (p.of_base64url payload) ≡ some stored
    pub live : now < stored.expires_at
    pub address : e.get_address stored.address ≡ some session.address
    pub expiry : session.expires_at ≡ stored.expires_at

  with_address-eqs :
      (stored session : WalletSession) (o : Option String)
      → with_address e p secret stored o ≡ some session
      → (o ≡ some session.address) × (session.expires_at ≡ stored.expires_at)
  with_address-eqs stored session none h = cc
  with_address-eqs stored session (some a) h =
      let same = some-injective h in
      (ap (λ s. some s.address) same, sym (ap (λ s. s.expires_at) same))

  live_session-eqs :
      (now : ℕ) (o : Option WalletSession) (session : WalletSession)
      → live_session e p secret now o ≡ some session
      → (stored : WalletSession) × (o ≡ some stored)
        × (now < stored.expires_at)
        × (e.get_address stored.address ≡ some session.address)
        × (session.expires_at ≡ stored.expires_at)
  unfolding live_session
  live_session-eqs now none session h = cc
  live_session-eqs now (some stored) session h = elim (Bool-cases (ltb now stored.expires_at)) [
    | inl t ↦
        let (address, expiry) =
          with_address-eqs stored session (e.get_address stored.address) (rw t at h) in
        (stored, refl, ground arith, address, expiry)
    | inr f ↦ absurd (ground arith)
  ]

  read_parts-IsSealed :
      (token : String) (now : ℕ) (o : Option (String × String)) (session : WalletSession)
      → token_parts (split b'.' token) ≡ o
      → read_parts e p secret now o ≡ some session
      → IsSealed token now session
  unfolding read_parts
  read_parts-IsSealed token now none session parts h = cc
  read_parts-IsSealed token now (some (payload, signature)) session parts h =
      elim (Bool-cases (same_bytes (p.of_hex signature) (p.of_hex (sign e p secret payload)))) [
        | inl t ↦
            let (stored, holds, live, address, expiry) =
              live_session-eqs now (p.parse (p.of_base64url payload)) session (rw t at h) in
            record {
              payload = payload;
              signature = signature;
              parts = parts;
              sealed = t;
              stored = stored;
              holds = holds;
              live = live;
              address = address;
              expiry = expiry;
            }
        | inr f ↦ absurd (ground arith)
      ]

  read_token-IsSealed :
      (now : ℕ) (o : Option String) (session : WalletSession)
      → read_token e p secret now o ≡ some session
      → (token : String) × (o ≡ some token) × IsSealed token now session
  unfolding read_token
  read_token-IsSealed now none session h = cc
  read_token-IsSealed now (some token) session h =
      (token, refl, read_parts-IsSealed token now _ session refl h)

  -- A session is read only from a token whose payload carries the service's own digest, and only
  -- before the expiry in it; the session has the payload's address, checked, and its expiry.
  pub read_session-IsSealed :
      (token : Option String) (now : ℕ) (session : WalletSession)
      → read_session e p secret token now ≡ some session
      → (text : String) × (truthy token ≡ some text) × IsSealed text now session
  unfolding read_session
  read_session-IsSealed token now session h = read_token-IsSealed now (truthy token) session h
