-- ===== src/Prelude/Lists.antt =====
-- Lists over the native numbers: the array methods that the program calls, and their laws.
use Prim.Native.Nat.{ℕ, zero, suc, ◌≤◌}
use mathlib.Core.Path.{◌≡◌, refl, sym, subst}
use mathlib.Core.Bool.{Bool, true, false, ◌&&◌, ◌||◌}
use mathlib.Core.Logic.{◌⊎◌, inl, inr}
use mathlib.Core.Option.{Option, none, some}
use mathlib.Core.List.{List, [], ◌∷◌, ◌++◌, Memᴰ}
use native.Mathlib.Omega.{arith}
use veyronis.Prelude.Tests.{if◌then◌else◌, Bool-cases}

module _ {ℓ} {A : Type ℓ} where
  abbrev pub length : List A → ℕ
  length [] = 0
  length (x ∷ xs) = suc (length xs)

  abbrev pub get_elem? : List A → ℕ → Option A
  get_elem? [] i = none
  get_elem? (x ∷ xs) zero = some x
  get_elem? (x ∷ xs) (suc i) = get_elem? xs i

  -- `xs.some(p)`.
  unfoldable pub any : (A → Bool) → List A → Bool
  any p [] = false
  any p (x ∷ xs) = p x || any p xs

  -- `xs.every(p)`.
  unfoldable pub all : (A → Bool) → List A → Bool
  all p [] = true
  all p (x ∷ xs) = p x && all p xs

  -- `xs.find(p)`.
  unfoldable pub find : (A → Bool) → List A → Option A
  find p [] = none
  find p (x ∷ xs) = if p x then some x else find p xs

  -- `xs.filter(p)`.
  unfoldable pub filter : (A → Bool) → List A → List A
  filter p [] = []
  filter p (x ∷ xs) = let rest = filter p xs in if p x then x ∷ rest else rest

  abbrev pub All {κ} : (A → Type κ) → List A → Type κ
  All P [] = Unit
  All P (x ∷ xs) = P x × All P xs

  -- What `find` returns stands in the list and passes the test.
  pub find-eq-some :
      (p : A → Bool) (xs : List A) {x : A} → find p xs ≡ some x → Memᴰ x xs × (p x ≡ true)
  unfolding find
  find-eq-some p [] h = cc
  find-eq-some p (y ∷ ys) {x} h = elim (Bool-cases (p y)) [
    | inl t ↦ let e : y ≡ x = ground arith in (Memᴰ.head (sym e), rw (← e) t)
    | inr f ↦ let r = find-eq-some p ys (rw f at h) in (Memᴰ.tail r.0, r.1)
  ]

  mem-if :
      (b : Bool) (y : A) (rest : List A) {x : A}
      → Memᴰ x (if b then y ∷ rest else rest)
      → ((x ≡ y) × (b ≡ true)) ⊎ Memᴰ x rest
  mem-if true y rest (Memᴰ.head e) = inl (e, refl)
  mem-if true y rest (Memᴰ.tail m) = inr m
  mem-if false y rest m = inr m

  -- What stands in a filtered list stands in the list and passes the test.
  pub mem-filter :
      (p : A → Bool) (xs : List A) {x : A} → Memᴰ x (filter p xs) → Memᴰ x xs × (p x ≡ true)
  unfolding filter
  mem-filter p [] m = elim m [ ]
  mem-filter p (y ∷ ys) {x} m = elim (mem-if (p y) y (filter p ys) m) [
    | inl (e, t) ↦ (Memᴰ.head e, rw e t)
    | inr n ↦ let (k, t) = mem-filter p ys n in (Memᴰ.tail k, t)
  ]

  pub mem-middle : (before : List A) (x : A) (after : List A) → Memᴰ x (before ++ (x ∷ after))
  mem-middle [] x after = Memᴰ.head refl
  mem-middle (y ∷ before) x after = Memᴰ.tail (mem-middle before x after)

  pub filter-mem :
      (p : A → Bool) (xs : List A) {x : A} → Memᴰ x xs → p x ≡ true → Memᴰ x (filter p xs)
  unfolding filter
  filter-mem p [] m t = elim m [ ]
  filter-mem p (y ∷ ys) (Memᴰ.head e) t = let t' = rw e at t in rw t' (Memᴰ.head e)
  filter-mem p (y ∷ ys) {x} (Memᴰ.tail m) t = elim (Bool-cases (p y)) [
    | inl k ↦ rw k (Memᴰ.tail (filter-mem p ys m t))
    | inr k ↦ rw k (filter-mem p ys m t)
  ]

  pub All-mem {κ} : (P : A → Type κ) (xs : List A) {x : A} → All P xs → Memᴰ x xs → P x
  All-mem P [] a m = elim m [ ]
  All-mem P (y ∷ ys) (here, rest) (Memᴰ.head e) = subst P (sym e) here
  All-mem P (y ∷ ys) (here, rest) (Memᴰ.tail m) = All-mem P ys rest m

  length-if :
      (b : Bool) (x : A) (xs : List A) (n : ℕ)
      → length xs ≤ n
      → length (if b then x ∷ xs else xs) ≤ suc n
  length-if true x xs n h = omega arith
  length-if false x xs n h = omega arith

  pub length-filter : (p : A → Bool) (xs : List A) → length (filter p xs) ≤ length xs
  unfolding filter
  length-filter p [] = omega arith
  length-filter p (x ∷ xs) = length-if (p x) x (filter p xs) (length xs) (length-filter p xs)

  All-if {κ} :
      (P : A → Type κ) (b : Bool) (x : A) (xs : List A)
      → P x
      → All P xs
      → All P (if b then x ∷ xs else xs)
  All-if P true x xs h k = (h, k)
  All-if P false x xs h k = k

  pub All-filter {κ} :
      (P : A → Type κ) (p : A → Bool) (xs : List A) → All P xs → All P (filter p xs)
  unfolding filter
  All-filter P p [] h = tt
  All-filter P p (x ∷ xs) (h, k) = All-if P (p x) x (filter p xs) h (All-filter P p xs k)
