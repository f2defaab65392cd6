-- ===== src/Frontend/Wizard/Order.antt =====
-- Going on and going back in the wizard of frontend/app/escrow/wizard-flow.ts.
use veyronis.Prelude.{ℕ, zero, suc, ◌<◌, ◌≤◌, ◌≡◌, refl, true, arith}
use veyronis.Frontend.Wizard.{
  AgreementWizardMode, work, external, both, is_wizard_step_visible, next_wizard_step,
  previous_wizard_step, skip_on, skip_back, last_step,
}

-- The next step is later and visible, and the one before it is this one.
abbrev pub GoesOn : ℕ → AgreementWizardMode → Type 0
GoesOn step mode =
    (step < next_wizard_step step mode)
    × (next_wizard_step step mode ≤ last_step)
    × (is_wizard_step_visible (next_wizard_step step mode) mode ≡ true)
    × (previous_wizard_step (next_wizard_step step mode) mode ≡ step)

-- What holds of the six steps before the last, as far as they are visible, holds of each visible
-- step before the last.
by_step :
    (P : ℕ → Type 0) (mode : AgreementWizardMode) (step : ℕ)
    → P 1 × P 2 × P 3
    → (is_wizard_step_visible 4 mode ≡ true → P 4)
      × (is_wizard_step_visible 5 mode ≡ true → P 5)
      × P 6
    → step < last_step
    → is_wizard_step_visible step mode ≡ true
    → P step
unfolding is_wizard_step_visible
by_step P mode zero (p1, p2, p3) (p4, p5, p6) h v = ground arith
by_step P mode (suc zero) (p1, p2, p3) (p4, p5, p6) h v = p1
by_step P mode (suc (suc zero)) (p1, p2, p3) (p4, p5, p6) h v = p2
by_step P mode (suc (suc (suc zero))) (p1, p2, p3) (p4, p5, p6) h v = p3
by_step P mode (suc (suc (suc (suc zero)))) (p1, p2, p3) (p4, p5, p6) h v = p4 v
by_step P mode (suc (suc (suc (suc (suc zero))))) (p1, p2, p3) (p4, p5, p6) h v = p5 v
by_step P mode (suc (suc (suc (suc (suc (suc zero)))))) (p1, p2, p3) (p4, p5, p6) h v = p6
by_step P mode (suc (suc (suc (suc (suc (suc (suc n))))))) (p1, p2, p3) (p4, p5, p6) h v =
    ground arith

-- From a visible step before the last, the wizard goes on to a later step that is visible too,
-- and from there back to where it was.
pub previous_wizard_step-next_wizard_step :
    (step : ℕ) (mode : AgreementWizardMode)
    → step < last_step
    → is_wizard_step_visible step mode ≡ true
    → GoesOn step mode
unfolding next_wizard_step previous_wizard_step skip_on skip_back is_wizard_step_visible
previous_wizard_step-next_wizard_step step work h v =
    by_step (λ k. GoesOn k work) work step
      (
        (omega arith, omega arith, refl, refl),
        (omega arith, omega arith, refl, refl),
        (omega arith, omega arith, refl, refl),
      )
      (
        (λ k. (omega arith, omega arith, refl, refl)),
        (λ k. ground arith),
        (omega arith, omega arith, refl, refl),
      )
      h v
previous_wizard_step-next_wizard_step step external h v =
    by_step (λ k. GoesOn k external) external step
      (
        (omega arith, omega arith, refl, refl),
        (omega arith, omega arith, refl, refl),
        (omega arith, omega arith, refl, refl),
      )
      (
        (λ k. ground arith),
        (λ k. (omega arith, omega arith, refl, refl)),
        (omega arith, omega arith, refl, refl),
      )
      h v
previous_wizard_step-next_wizard_step step both h v =
    by_step (λ k. GoesOn k both) both step
      (
        (omega arith, omega arith, refl, refl),
        (omega arith, omega arith, refl, refl),
        (omega arith, omega arith, refl, refl),
      )
      (
        (λ k. (omega arith, omega arith, refl, refl)),
        (λ k. (omega arith, omega arith, refl, refl)),
        (omega arith, omega arith, refl, refl),
      )
      h v
