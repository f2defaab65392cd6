-- ===== src/Auth/Challenges.antt =====
-- The map of challenges of backend/src/auth/wallet-auth.ts, over any history of calls.
use veyronis.Prelude.{
  ℕ, suc, ◌≤◌, String, ◌≡◌, ◌≢◌, refl, subst, sym, Bool, true, false, not, List, [], ◌∷◌, arith,
  length, filter, leb, All, All-filter, length-filter, Bool-cases, inl, inr, if◌then◌else◌,
}
use veyronis.Prelude.Text.{to_lower_case}
use veyronis.Prelude.Flow.{or_throw}
use veyronis.Prelude.Flow.Run.{bind-state, lift-state, require-state, pure-state}
use veyronis.Ethers.{Ethers}
use veyronis.Auth.{
  Platform, Challenge, Challenges, set, delete, prune_challenges, make_room, challenge_for,
  store_challenge, create_challenge, read_pending, remove, verify,
}
use text.Mathlib.Text.{◌==◌}
use text.Mathlib.TextEquality.{eq_iff}

-- No entry has this key, and no two have the same.
abbrev IsFresh : String → Challenges → Type 0
IsFresh key s = All (λ c. c.key ≢ key) s

abbrev pub HasDistinctKeys : Challenges → Type 0
HasDistinctKeys [] = Unit
HasDistinctKeys (c ∷ s) = IsFresh c.key s × HasDistinctKeys s

distinct-if :
    (b : Bool) (c : Challenge) (s : Challenges)
    → IsFresh c.key s
    → HasDistinctKeys s
    → HasDistinctKeys (if b then c ∷ s else s)
distinct-if true c s h k = (h, k)
distinct-if false c s h k = k

distinct-filter :
    (p : Challenge → Bool) (s : Challenges) → HasDistinctKeys s → HasDistinctKeys (filter p s)
unfolding filter
distinct-filter p [] h = tt
distinct-filter p (c ∷ s) (h, k) =
    distinct-if (p c) c (filter p s) (All-filter _ p s h) (distinct-filter p s k)

module _ (P : Challenge → Type 0) where
  All-set : (c : Challenge) (s : Challenges) → P c → All P s → All P (set c s)
  unfolding set
  All-set c [] h k = (h, tt)
  All-set c (d ∷ s) h (k, l) = elim (Bool-cases (d.key == c.key)) [
    | inl t ↦ rw t (h, l)
    | inr f ↦ rw f (k, All-set c s h l)
  ]

  All-make_room : (s : Challenges) → All P s → All P (make_room s)
  unfolding make_room
  All-make_room [] h = h
  All-make_room (c ∷ s) h = elim (Bool-cases (leb 1000 (suc (length s)))) [
    | inl t ↦ rw t (h.1)
    | inr f ↦ rw f h
  ]

distinct-set : (c : Challenge) (s : Challenges) → HasDistinctKeys s → HasDistinctKeys (set c s)
unfolding set
distinct-set c [] h = (tt, tt)
distinct-set c (d ∷ s) (h, k) = elim (Bool-cases (d.key == c.key)) [
  | inl t ↦ rw t (subst (λ i. IsFresh i s) ((eq_iff d.key c.key).0 t) h, k)
  | inr f ↦
      rw f
        (All-set _ c s (λ e. ground (arith, (eq_iff d.key c.key).1 (sym e))) h, distinct-set c s k)
]

distinct-make_room : (s : Challenges) → HasDistinctKeys s → HasDistinctKeys (make_room s)
unfolding make_room
distinct-make_room [] h = h
distinct-make_room (c ∷ s) h = elim (Bool-cases (leb 1000 (suc (length s)))) [
  | inl t ↦ rw t (h.1)
  | inr f ↦ rw f h
]

length-set : (c : Challenge) (s : Challenges) → length (set c s) ≤ suc (length s)
unfolding set
length-set c [] = omega arith
length-set c (d ∷ s) =
    let rest = length-set c s in
    elim (Bool-cases (d.key == c.key)) [ inl t ↦ rw t (omega arith) | inr f ↦ rw f (omega arith) ]

length-make_room : (s : Challenges) → length s ≤ 1000 → suc (length (make_room s)) ≤ 1000
unfolding make_room
length-make_room [] h = omega arith
length-make_room (c ∷ s) h = ground arith

module _ (e : Ethers) (p : Platform) where
  -- A stored challenge is one that the service made, for the address that it is kept under.
  abbrev pub IsWritten : Challenge → Type 0
  IsWritten c =
      (address : String) × (nonce : String) × (c ≡ challenge_for e p address nonce c.expires_at)

  pub record IsSound (s : Challenges) : Type 0 where
    pub bounded : length s ≤ 1000
    pub distinct : HasDistinctKeys s
    pub written : All IsWritten s

  filter-IsSound : (q : Challenge → Bool) (s : Challenges) → IsSound s → IsSound (filter q s)
  filter-IsSound q s v = record {
    bounded = omega (arith, length-filter q s, v.bounded);
    distinct = distinct-filter q s v.distinct;
    written = All-filter IsWritten q s v.written;
  }

  store_challenge-IsSound :
      (address nonce : String) (expires_at now : ℕ) (s : Challenges)
      → IsSound s
      → IsSound (store_challenge e p address nonce expires_at now s).1
  unfolding store_challenge prune_challenges
  store_challenge-IsSound address nonce expires_at now s v =
      let c = challenge_for e p address nonce expires_at in
      let pruned = filter (λ d. not (leb d.expires_at now)) s in
      let w = filter-IsSound (λ d. not (leb d.expires_at now)) s v in
      record {
        bounded = omega (arith, length-set c (make_room pruned), length-make_room pruned w.bounded);
        distinct = distinct-set c (make_room pruned) (distinct-make_room pruned w.distinct);
        written =
            All-set IsWritten c (make_room pruned) (address, nonce, refl)
              (All-make_room IsWritten pruned w.written);
      }

  create_challenge-IsSound :
      (input nonce : String) (now later : ℕ) (s : Challenges)
      → IsSound s
      → IsSound (create_challenge e p input nonce now later s).1
  unfolding create_challenge
  create_challenge-IsSound input nonce now later s v =
      lift-state IsSound (or_throw (e.get_address input)) _ s v
        (λ address. store_challenge-IsSound address nonce _ later s v)

  module _ (secret : String) where
    remove-IsSound : (key : String) (s : Challenges) → IsSound s → IsSound (remove e p key s).1
    unfolding remove delete
    remove-IsSound key s v = filter-IsSound _ s v

    verify-IsSound :
        (input signature : String) (now later : ℕ) (s : Challenges)
        → IsSound s
        → IsSound (verify e p secret input signature now later s).1
    unfolding verify
    verify-IsSound input signature now later s v =
        lift-state IsSound (or_throw (e.get_address input)) _ s v (λ address.
          bind-state IsSound (read_pending e p (to_lower_case address) now) _ s
            (unfold read_pending in v)
            (λ c t w.
              lift-state IsSound (or_throw (p.verify_message c.message signature)) _ t w (λ signer.
                lift-state IsSound (or_throw (e.get_address signer)) _ t w (λ recovered.
                  require-state IsSound (recovered == address) _ _ t w (λ _.
                    bind-state IsSound (remove e p (to_lower_case address)) _ t
                      (remove-IsSound (to_lower_case address) t w)
                      (λ _ u x. pure-state String IsSound _ u x))))))

    pub data Request : Type 0 where
      creates : String → String → ℕ → ℕ → Request
      verifies : String → String → ℕ → ℕ → Request

    abbrev pub served : Request → Challenges → Challenges
    served (creates input nonce now later) s = (create_challenge e p input nonce now later s).1
    served (verifies input signature now later) s =
        (verify e p secret input signature now later s).1

    -- The map after a sequence of requests.
    pub after_requests : List Request → Challenges → Challenges
    after_requests [] s = s
    after_requests (r ∷ rs) s = after_requests rs (served r s)

    served-IsSound : (r : Request) (s : Challenges) → IsSound s → IsSound (served r s)
    served-IsSound (creates input nonce now later) s v =
        create_challenge-IsSound input nonce now later s v
    served-IsSound (verifies input signature now later) s v =
        verify-IsSound input signature now later s v

    requests-IsSound :
        (rs : List Request) (s : Challenges) → IsSound s → IsSound (after_requests rs s)
    unfolding after_requests
    requests-IsSound [] s v = v
    requests-IsSound (r ∷ rs) s v = requests-IsSound rs (served r s) (served-IsSound r s v)

    -- After any requests to a new service it keeps at most 1000 challenges, under distinct keys, and
    -- each is one that it made for the address that it is kept under.
    pub after_requests-IsSound : (rs : List Request) → IsSound (after_requests rs [])
    after_requests-IsSound rs =
        requests-IsSound rs [] (record { bounded = omega arith; distinct = tt; written = tt })
