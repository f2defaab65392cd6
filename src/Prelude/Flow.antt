-- ===== src/Prelude/Flow.antt =====
-- Code that returns early with a reported failure, or throws. `next` goes on, `failed` is the
-- failure that the program reports as a value or as its own error class, and `threw` is an
-- exception of a library.
pub mod Run
use mathlib.Core.Path.{◌≡◌, refl}
use mathlib.Core.Bool.{Bool, true, false}
use mathlib.Core.Option.{Option, none, some}
use native.Mathlib.Omega.{arith}

pub data Flow (E A : Type 0) : Type 0 where
  next : A → Flow E A
  failed : E → Flow E A
  threw : Flow E A

module _ {E A B : Type 0} where
  infixl 5 ◌>>=◌ ◌>>◌
  abbrev pub ◌>>=◌ : Flow E A → (A → Flow E B) → Flow E B
  next a >>= f = f a
  failed e >>= f = failed e
  threw >>= f = threw

  abbrev pub ◌>>◌ : Flow E A → Flow E B → Flow E B
  m >> k = m >>= λ _. k

  -- A block that went on to its end went through each of its steps.
  pub bind-eq-next :
      (m : Flow E A) (f : A → Flow E B) {b : B}
      → (m >>= f) ≡ next b
      → (a : A) × (m ≡ next a) × (f a ≡ next b)
  bind-eq-next (next a) f h = (a, refl, h)
  bind-eq-next (failed e) f h = cc
  bind-eq-next threw f h = cc

module _ {E : Type 0} where
  -- `if (!test) return failure(e)`.
  abbrev pub require : Bool → E → Flow E (Unit {0})
  require true e = next tt
  require false e = failed e

  module _ {A : Type 0} where
    -- A call that may throw, with nothing to catch it.
    abbrev pub or_throw : Option A → Flow E A
    or_throw none = threw
    or_throw (some a) = next a

    -- `try { … } catch { return failure(e) }` around such a call.
    abbrev pub or_fail : Option A → E → Flow E A
    or_fail none e = failed e
    or_fail (some a) e = next a

    pub require-eq-next :
        (b : Bool) (e : E) (k : Flow E A) {a : A}
        → (require b e >> k) ≡ next a
        → (b ≡ true) × (k ≡ next a)
    require-eq-next true e k h = (refl, h)
    require-eq-next false e k h = cc

    pub or_throw-eq-next :
        (o : Option A) {B : Type 0} (f : A → Flow E B) {b : B}
        → (or_throw o >>= f) ≡ next b
        → (a : A) × (o ≡ some a) × (f a ≡ next b)
    or_throw-eq-next none f h = cc
    or_throw-eq-next (some a) f h = (a, refl, h)

    pub or_throw-next : (o : Option A) {a : A} → or_throw o ≡ next a → o ≡ some a
    or_throw-next none h = cc
    or_throw-next (some a) h = ground arith

    pub or_fail-eq-next :
        (o : Option A) (e : E) {B : Type 0} (f : A → Flow E B) {b : B}
        → (or_fail o e >>= f) ≡ next b
        → (a : A) × (o ≡ some a) × (f a ≡ next b)
    or_fail-eq-next none e f h = cc
    or_fail-eq-next (some a) e f h = (a, refl, h)

    pub or_fail-next : (o : Option A) (e : E) {a : A} → or_fail o e ≡ next a → o ≡ some a
    or_fail-next none e h = cc
    or_fail-next (some a) e h = ground arith

    pub next-injective : {a b : A} → ◌≡◌ {A = Flow E A} (next a) (next b) → a ≡ b
    next-injective h = ground arith
