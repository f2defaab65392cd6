-- ===== src/Prelude/Flow/Run.antt =====
-- The same over a state that the steps read and change. What a step changed before it failed
-- stays changed, so the state comes back beside a failure too.
use mathlib.Core.Path.{◌≡◌, refl, ap}
use mathlib.Core.Bool.{Bool, true, false}
use mathlib.Core.Logic.{◌≢◌}
use native.Mathlib.Omega.{arith}
use veyronis.Prelude.Flow
use veyronis.Prelude.Flow.{Flow, next, failed, threw}

abbrev pub Run : Type 0 → Type 0 → Type 0 → Type 0
Run S E A = S → Flow E A × S

module _ {S E A : Type 0} where
  pub pure : A → Run S E A
  pure a s = (next a, s)

  -- A step that neither reads nor changes the state.
  pub lift : Flow E A → Run S E A
  lift m s = (m, s)

module _ {S E A B : Type 0} where
  abbrev pub continue : Flow E A × S → (A → Run S E B) → Flow E B × S
  continue (next a, s) f = f a s
  continue (failed e, s) f = (failed e, s)
  continue (threw, s) f = (threw, s)

  infixl 5 ◌>>=◌ ◌>>◌
  -- Shut, so that rules about blocks find their parts. Opening it opens `pure` and `lift` too.
  unfoldable pub ◌>>=◌ : Run S E A → (A → Run S E B) → Run S E B
  unfolding pure lift
  ◌>>=◌ m f s = continue (m s) f

  abbrev pub ◌>>◌ : Run S E A → Run S E B → Run S E B
  m >> k = m >>= λ _. k

  continue-eq-next :
      (r : Flow E A × S) (f : A → Run S E B) {b : B} {t : S}
      → continue r f ≡ (next b, t)
      → (a : A) × (u : S) × (r ≡ (next a, u)) × (f a u ≡ (next b, t))
  continue-eq-next (next a, u) f h = (a, u, refl, h)
  continue-eq-next (failed e, u) f h = cc
  continue-eq-next (threw, u) f h = cc

  -- A block that went on to its end went through each of its steps, in order.
  pub bind-eq-next :
      (m : Run S E A) (f : A → Run S E B) (s : S) {b : B} {t : S}
      → (m >>= f) s ≡ (next b, t)
      → (a : A) × (u : S) × (m s ≡ (next a, u)) × (f a u ≡ (next b, t))
  unfolding ◌>>=◌
  bind-eq-next m f s h = continue-eq-next (m s) f h

  pub lift-eq-next :
      (m : Flow E A) (f : A → Run S E B) (s : S) {b : B} {t : S}
      → (lift m >>= f) s ≡ (next b, t)
      → (a : A) × (m ≡ next a) × (f a s ≡ (next b, t))
  unfolding ◌>>=◌
  lift-eq-next (next a) f s h = (a, refl, h)
  lift-eq-next (failed e) f s h = cc
  lift-eq-next threw f s h = cc

module _ {S E A : Type 0} where
  pub pure-eq-next :
      (a : A) (s : S) {b : A} {t : S}
      → ◌≡◌ {A = Flow E A × S} (pure a s) (next b, t)
      → (a ≡ b) × (s ≡ t)
  unfolding ◌>>=◌
  pure-eq-next a s h = (ground arith, ground arith)

module _ {S E A : Type 0} where
  pub lift-next :
      (m : Flow E A) (s : S) {a : A} {t : S}
      → ◌≡◌ {A = Flow E A × S} (lift m s) (next a, t)
      → m ≡ next a
  unfolding ◌>>=◌
  lift-next m s h = ap (λ x. x.0) h

module _ {S E : Type 0} where
  abbrev pub require : Bool → E → Run S E (Unit {0})
  require b e = lift (Flow.require b e)

  module _ {A : Type 0} where
    -- A block that went on past a check passed it.
    pub require-eq-next :
        (b : Bool) (fault : E) (f : Unit {0} → Run S E A) (s : S) {a : A} {t : S}
        → (require b fault >>= f) s ≡ (next a, t)
        → (b ≡ true) × (f tt s ≡ (next a, t))
    unfolding ◌>>=◌
    require-eq-next true fault f s h = (refl, h)
    require-eq-next false fault f s h = cc

    pub require_reports :
        (b : Bool) (fault : E) (f : Unit {0} → Run S E A) (s : S)
        → (f tt s).0 ≢ threw
        → ((require b fault >>= f) s).0 ≢ threw
    unfolding ◌>>=◌
    require_reports true fault f s n h = n h
    require_reports false fault f s n h = cc

  pub require-next :
      (b : Bool) (fault : E) (s : S) {t : S}
      → ◌≡◌ {A = Flow E (Unit {0}) × S} (require b fault s) (next tt, t)
      → b ≡ true
  unfolding ◌>>=◌
  require-next true fault s h = refl
  require-next false fault s h = cc

module _ {S E A B : Type 0} (P : S → Type 0) where
  continue-state :
      (r : Flow E A × S) (f : A → Run S E B)
      → P r.1
      → ((a : A) (t : S) → P t → P (f a t).1)
      → P (continue r f).1
  continue-state (next a, t) f h k = k a t h
  continue-state (failed e, t) f h k = h
  continue-state (threw, t) f h k = h

  -- What every step of a block keeps of the state, the block keeps, also where it fails.
  pub bind-state :
      (m : Run S E A) (f : A → Run S E B) (s : S)
      → P (m s).1
      → ((a : A) (t : S) → P t → P (f a t).1)
      → P ((m >>= f) s).1
  unfolding ◌>>=◌
  bind-state m f s h k = continue-state (m s) f h k

  continue-step :
      (r : Flow E A × S) (f : A → Run S E B)
      → P r.1
      → ((a : A) (t : S) → r ≡ (next a, t) → P (f a t).1)
      → P (continue r f).1
  continue-step (next a, t) f h k = k a t refl
  continue-step (failed e, t) f h k = h
  continue-step (threw, t) f h k = h

  -- The same, where the rest needs to know what the step returned.
  pub step-state :
      (m : Run S E A) (f : A → Run S E B) (s : S)
      → P (m s).1
      → ((a : A) (t : S) → m s ≡ (next a, t) → P (f a t).1)
      → P ((m >>= f) s).1
  unfolding ◌>>=◌
  step-state m f s h k = continue-step (m s) f h k

  pub lift-state :
      (m : Flow E A) (f : A → Run S E B) (s : S)
      → P s
      → ((a : A) → P (f a s).1)
      → P ((lift m >>= f) s).1
  unfolding ◌>>=◌
  lift-state (next a) f s h k = k a
  lift-state (failed e) f s h k = h
  lift-state threw f s h k = h

module _ {S E B : Type 0} (P : S → Type 0) where
  pub require-state :
      (b : Bool) (fault : E) (f : Unit {0} → Run S E B) (s : S)
      → P s
      → (b ≡ true → P (f tt s).1)
      → P ((require b fault >>= f) s).1
  unfolding ◌>>=◌
  require-state true fault f s h k = k refl
  require-state false fault f s h k = h

pub pure-state :
    (E : Type 0) {S A : Type 0} (P : S → Type 0) (a : A) (s : S) → P s → P (pure {E = E} a s).1
unfolding ◌>>=◌
pure-state E P a s h = h
