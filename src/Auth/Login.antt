-- ===== src/Auth/Login.antt =====
-- What `verify` of backend/src/auth/wallet-auth.ts asks for, and that it works once.
use veyronis.Prelude.{
  ℕ, ◌≤◌, String, ◌≡◌, refl, sym, subst, ap, ◌∙◌, Bool, true, false, not, [], ◌∷◌, Option, none,
  some, arith, find, filter, Bool-cases, inl, inr, if◌then◌else◌, some-injective, ◌+◌,
}
use veyronis.Prelude.Text.{to_lower_case}
use veyronis.Prelude.Flow.{next-injective, next, failed, or_throw, or_throw-next}
use veyronis.Prelude.Flow.Run.{◌>>=◌, bind-eq-next, lift-eq-next, pure-eq-next, require-eq-next}
use veyronis.Ethers.{Ethers}
use veyronis.Auth.{
  IssuedChallenge, Platform, Challenge, Challenges, get, set, delete, prune_challenges, make_room,
  challenge_for, challenge_message, store_challenge, create_challenge, pending, read_pending,
  remove, verify, issue_session,
}
use text.Mathlib.Text.{◌==◌}
use text.Mathlib.TextEquality.{eq_iff}

text_refl : (s : String) → (s == s) ≡ true
text_refl s = (eq_iff s s).1 refl

find-if :
    (b : Bool) (c : Challenge) (s : Challenges) (q : Challenge → Bool)
    → (b ≡ true → q c ≡ false)
    → find q s ≡ none
    → find q (if b then c ∷ s else s) ≡ none
unfolding find
find-if true c s q h k = rw (h refl) k
find-if false c s q h k = k

-- What is deleted is gone.
get-delete : (key : String) (s : Challenges) → get key (delete key s) ≡ none
unfolding get delete find filter
get-delete key [] = refl
get-delete key (c ∷ s) =
    find-if (not (c.key == key)) c (delete key s) (λ d. d.key == key) (λ h. ground arith)
      (get-delete key s)

-- What is set is found.
get-set : (c : Challenge) (s : Challenges) → get c.key (set c s) ≡ some c
unfolding get set find
get-set c [] = rw (text_refl c.key) refl
get-set c (d ∷ s) =
    let rest = get-set c s in
    elim (Bool-cases (d.key == c.key)) [
      | inl t ↦ rw (t, text_refl c.key) refl
      | inr f ↦ rw (f, f) rest
    ]

pending-next :
    (now : ℕ) (o : Option Challenge) (c : Challenge)
    → pending now o ≡ next c
    → (o ≡ some c) × (now ≤ c.expires_at)
unfolding pending
pending-next now none c h = cc
pending-next now (some d) c h = ground arith

pending-live : (now : ℕ) (c : Challenge) → now ≤ c.expires_at → pending now (some c) ≡ next c
unfolding pending
pending-live now c h = ground arith

module _ (e : Ethers) (p : Platform) (secret : String) where
  -- The address has a challenge that it has signed and that has not expired.
  pub record IsSigned (input signature : String) (now : ℕ) (s : Challenges) (address : String)
      : Type 0 where
    pub parsed : e.get_address input ≡ some address
    pub challenge : Challenge
    pub kept : get (to_lower_case address) s ≡ some challenge
    pub live : now ≤ challenge.expires_at
    pub signer : String
    pub signed : p.verify_message challenge.message signature ≡ some signer
    pub recovered : e.get_address signer ≡ some address

  read_pending-eqs :
      (key : String) (now : ℕ) (s t : Challenges) (c : Challenge)
      → read_pending e p key now s ≡ (next c, t)
      → (pending now (get key s) ≡ next c) × (s ≡ t)
  unfolding read_pending
  read_pending-eqs key now s t c h = (ap (λ x. x.0) h, ap (λ x. x.1) h)

  remove-eq : (key : String) (s t : Challenges) → remove e p key s ≡ (next tt, t) → delete key s ≡ t
  unfolding remove
  remove-eq key s t h = ap (λ x. x.1) h

  -- A session is issued to an address that has signed its own pending challenge before it
  -- expires, and the challenge is then gone.
  pub verify-IsSigned :
      (input signature : String) (now later : ℕ) (s t : Challenges) (token : String)
      → verify e p secret input signature now later s ≡ (next token, t)
      → (address : String) × IsSigned input signature now s address
        × (token ≡ issue_session e p secret address later)
        × (t ≡ delete (to_lower_case address) s)
  unfolding verify
  verify-IsSigned input signature now later s t token h =
      let (address, parsed, h1) = lift-eq-next (or_throw (e.get_address input)) _ s h in
      let key = to_lower_case address in
      let (c, u, read, h2) = bind-eq-next (read_pending e p key now) _ s h1 in
      let (found, same) = read_pending-eqs key now s u c read in
      let (kept, live) = pending-next now (get key s) c found in
      let (signer, signed, h3) =
        lift-eq-next (or_throw (p.verify_message c.message signature)) _ u h2 in
      let (recovered, back, h4) = lift-eq-next (or_throw (e.get_address signer)) _ u h3 in
      let (matched, h5) = require-eq-next (recovered == address) _ _ u h4 in
      let (_, v, removed, h6) = bind-eq-next (remove e p key) _ u h5 in
      let (issued, last) = pure-eq-next (issue_session e p secret address later) v h6 in
      (
        address,
        record {
          parsed = or_throw-next (e.get_address input) parsed;
          challenge = c;
          kept = kept;
          live = live;
          signer = signer;
          signed = or_throw-next (p.verify_message c.message signature) signed;
          recovered =
              or_throw-next (e.get_address signer) back
              ∙ ap some ((eq_iff recovered address).0 matched);
        },
        sym issued,
        sym last ∙ sym (remove-eq key u v removed) ∙ ap (delete key) (sym same),
      )

  verify-missing :
      (input signature address : String) (now later : ℕ) (s : Challenges)
      → e.get_address input ≡ some address
      → get (to_lower_case address) s ≡ none
      → (verify e p secret input signature now later s) ≡ (failed "Challenge expired", s)
  unfolding verify read_pending pending ◌>>=◌
  verify-missing input signature address now later s parsed missing = rw (parsed, missing) refl

  -- A challenge is good for one session: after it, every other verification of the same address
  -- fails, at any time and with any signature, and changes nothing.
  pub verify-once :
      (input again signature other : String) (now later next_now next_later : ℕ) (s t : Challenges)
      (token address : String)
      → verify e p secret input signature now later s ≡ (next token, t)
      → e.get_address input ≡ some address
      → e.get_address again ≡ some address
      → verify e p secret again other next_now next_later t ≡ (failed "Challenge expired", t)
  verify-once input again signature other now later next_now next_later s t token address h parsed
        parsed_again =
      let (signer, signed, _, gone) = verify-IsSigned input signature now later s t token h in
      let same = some-injective (sym parsed ∙ signed.parsed) in
      verify-missing again other address next_now next_later t parsed_again (
        subst (λ x. get (to_lower_case address) x ≡ none) (sym gone)
          (subst (λ a. get (to_lower_case address) (delete (to_lower_case a) s) ≡ none) same
            (get-delete (to_lower_case address) s)))

  create_challenge-eqs :
      (input nonce address : String) (at pruned : ℕ) (s : Challenges)
      → e.get_address input ≡ some address
      → create_challenge e p input nonce at pruned s ≡ (
        next (record {
          address = address;
          message = challenge_message p address nonce (at + 300000);
          expires_at = p.iso (at + 300000);
        }),
        set (challenge_for e p address nonce (at + 300000)) (make_room (prune_challenges pruned s)),
      )
  unfolding create_challenge store_challenge ◌>>=◌
  create_challenge-eqs input nonce address at pruned s parsed = rw parsed refl

  verify-live :
      (input signature address signer : String) (now later : ℕ) (c : Challenge) (s : Challenges)
      → e.get_address input ≡ some address
      → get (to_lower_case address) s ≡ some c
      → now ≤ c.expires_at
      → p.verify_message c.message signature ≡ some signer
      → e.get_address signer ≡ some address
      → verify e p secret input signature now later s
        ≡ (next (issue_session e p secret address later), delete (to_lower_case address) s)
  unfolding verify read_pending remove ◌>>=◌
  verify-live input signature address signer now later c s parsed kept live signed recovered =
      rw (parsed, kept, pending-live now c live, signed, recovered, text_refl address) refl

  -- A wallet that signs the message of the challenge that it was given, within five minutes, gets
  -- its session, whatever the map held before; the challenge names its address and this expiry.
  pub create_challenge-verify :
      (input nonce signature address signer : String) (at pruned now later : ℕ) (s t : Challenges)
      (issued : IssuedChallenge)
      → create_challenge e p input nonce at pruned s ≡ (next issued, t)
      → e.get_address input ≡ some address
      → now ≤ at + 300000
      → p.verify_message issued.message signature ≡ some signer
      → e.get_address signer ≡ some address
      → (issued.address ≡ address)
        × (issued.expires_at ≡ p.iso (at + 300000))
        × ((verify e p secret input signature now later t).0
            ≡ next (issue_session e p secret address later))
  create_challenge-verify input nonce signature address signer at pruned now later s t issued made
        parsed live signed recovered =
      let c = challenge_for e p address nonce (at + 300000) in
      let room = make_room (prune_challenges pruned s) in
      let ran = create_challenge-eqs input nonce address at pruned s parsed in
      let same = next-injective (ap (λ x. x.0) (sym made ∙ ran)) in
      let stored : t ≡ set c room = ap (λ x. x.1) (sym made ∙ ran) in
      (
        ap (λ i. i.address) same,
        ap (λ i. i.expires_at) same,
        rw stored (
            ap (λ x. x.0)
              (verify-live input signature address signer now later c (set c room) parsed
                (get-set c room) live
                (ap (λ i. p.verify_message i.message signature) (sym same) ∙ signed) recovered)),
      )
