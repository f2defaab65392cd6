-- ===== src/Attestcoin/Address.antt =====
-- What the address tests of backend/src/attestcoin say of the two texts.
use veyronis.Prelude.{String, ◌≡◌, ◌↔◌, refl, Option, none, some, true, arith}
use veyronis.Ethers.{Ethers}
use veyronis.Attestcoin.{same_address, equal_addresses}
use text.Mathlib.TextEquality.{eq_iff}

-- Both texts are addresses, and the same one.
abbrev pub SameAddress : Ethers → String → String → Type 0
SameAddress e a b = (x : String) × (e.get_address a ≡ some x) × (e.get_address b ≡ some x)

equal_addresses-true :
    (l r : Option String) → equal_addresses l r ≡ true → (x : String) × (l ≡ some x) × (r ≡ some x)
unfolding equal_addresses
equal_addresses-true (some a) (some b) h = (a, refl, ground (arith, eq_iff a b))
equal_addresses-true none r h = cc
equal_addresses-true (some a) none h = cc

equal_addresses_refl :
    (l r : Option String) (x : String) → l ≡ some x → r ≡ some x → equal_addresses l r ≡ true
unfolding equal_addresses
equal_addresses_refl l r x p q = rw (p, q, equal_addresses) ((eq_iff x x).1 refl)

pub same_address_iff : (e : Ethers) (a b : String) → (same_address e a b ≡ true) ↔ SameAddress e a b
unfolding same_address
same_address_iff e a b = (
  λ h. equal_addresses-true (e.get_address a) (e.get_address b) h,
  λ (x, p, q). equal_addresses_refl (e.get_address a) (e.get_address b) x p q,
)
