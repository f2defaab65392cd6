-- ===== src/Attestcoin/Verifier/Calls.antt =====
-- Rules for what holds of every call that a block of attestcoin-verifier.ts has made.
use veyronis.Prelude.{◌∷◌, ◌≡◌, refl, All}
use veyronis.Prelude.Flow.{Flow, next, failed, threw}
use veyronis.Prelude.Flow.Run.{Run, continue, lift, pure, ◌>>=◌}
use veyronis.Attestcoin.{Failure}
use veyronis.Attestcoin.Verifier.Interfaces.{Call, Trace, perform}

module _ (P : Call → Type 0) {A B : Type 0} where
  pub lift-calls :
      (m : Flow Failure A) (f : A → Run Trace Failure B) (t : Trace)
      → All P t
      → ((a : A) → m ≡ next a → All P (f a t).1)
      → All P ((lift m >>= f) t).1
  unfolding ◌>>=◌
  lift-calls (next a) f t h k = k a refl
  lift-calls (failed x) f t h k = h
  lift-calls threw f t h k = h

  continue-calls :
      (r : Flow Failure A × Trace) (f : A → Run Trace Failure B)
      → All P r.1
      → ((a : A) (u : Trace) → r ≡ (next a, u) → All P u → All P (f a u).1)
      → All P (continue r f).1
  continue-calls (next a, u) f h k = k a u refl h
  continue-calls (failed x, u) f h k = h
  continue-calls (threw, u) f h k = h

  pub bind-calls :
      (m : Run Trace Failure A) (f : A → Run Trace Failure B) (t : Trace)
      → All P (m t).1
      → ((a : A) (u : Trace) → m t ≡ (next a, u) → All P u → All P (f a u).1)
      → All P ((m >>= f) t).1
  unfolding ◌>>=◌
  bind-calls m f t h k = continue-calls (m t) f h k

  answer-calls :
      (r : Flow Failure A) (u : Trace) (f : A → Run Trace Failure B)
      → All P u
      → ((a : A) → r ≡ next a → All P (f a u).1)
      → All P (continue (r, u) f).1
  answer-calls (next a) u f h k = k a refl
  answer-calls (failed x) u f h k = h
  answer-calls threw u f h k = h

  pub perform-calls :
      (c : Call) (answer : Trace → Flow Failure A) (f : A → Run Trace Failure B) (t : Trace)
      → All P t
      → P c
      → ((a : A) → answer t ≡ next a → All P (f a (c ∷ t)).1)
      → All P ((perform c answer >>= f) t).1
  unfolding ◌>>=◌ perform
  perform-calls c answer f t h p k = answer-calls (answer t) (c ∷ t) f (p, h) k

module _ (P : Call → Type 0) {A : Type 0} where
  -- A block that ends without a call.
  pub end-calls : (m : Flow Failure A) (t : Trace) → All P t → All P (lift m t).1
  unfolding ◌>>=◌
  end-calls m t h = h

  pub pure-calls : (a : A) (t : Trace) → All P t → All P (pure {E = Failure} a t).1
  unfolding ◌>>=◌
  pure-calls a t h = h
