-- ===== src/Frontend/Wizard.antt =====
-- frontend/app/escrow/wizard-flow.ts: the steps of the wizard that creates an agreement. The two
-- `while` loops run on fuel, the number of the steps that are left in their direction.
pub mod Order
use veyronis.Prelude.{
  ℕ, zero, suc, ◌+◌, ◌-◌, min, max, Bool, true, false, not, ◌&&◌, String, Option, none, some, ltb,
  leb, ◌==◌, if◌then◌else◌, List, [], ◌∷◌, length,
}

abbrev pub agreement_wizard_steps : List String
agreement_wizard_steps =
    "Participants" ∷ "Payment" ∷ "Verification Mode" ∷ "Work Requirements"
    ∷ "External Blockchain Condition" ∷ "Review" ∷ "Deploy & Fund" ∷ []

abbrev pub last_step : ℕ
last_step = length agreement_wizard_steps

pub data AgreementWizardMode : Type 0 where
  work external both : AgreementWizardMode

abbrev pub is_external : AgreementWizardMode → Bool
is_external external = true
is_external _ = false

abbrev pub is_work : AgreementWizardMode → Bool
is_work work = true
is_work _ = false

unfoldable pub is_wizard_step_visible : ℕ → AgreementWizardMode → Bool
is_wizard_step_visible step mode =
    if step == 4
    then not (is_external mode)
    else if step == 5
    then not (is_work mode)
    else leb 1 step && leb step last_step

-- The steps of a list that are visible, the first of which has this number.
visible_from : ℕ → AgreementWizardMode → List String → List String
unfolding is_wizard_step_visible
visible_from number mode [] = []
visible_from number mode (s ∷ steps) =
    let rest = visible_from (suc number) mode steps in
    if is_wizard_step_visible number mode then s ∷ rest else rest

unfoldable pub visible_wizard_steps : AgreementWizardMode → List String
unfolding visible_from
visible_wizard_steps mode = visible_from 1 mode agreement_wizard_steps

-- `undefined` is `none`.
unfoldable pub wizard_back_label : ℕ → Bool → Option String
wizard_back_label step deploying =
    if deploying then none else if step == 1 then some "Cancel Agreement" else some "Back"

-- `while (previous > 1 && !isWizardStepVisible(previous, mode)) previous -= 1`.
unfoldable pub skip_back : ℕ → ℕ → AgreementWizardMode → ℕ
unfolding is_wizard_step_visible
skip_back zero step mode = step
skip_back (suc fuel) step mode =
    let further = skip_back fuel (step - 1) mode in
    if ltb 1 step && not (is_wizard_step_visible step mode) then further else step

unfoldable pub previous_wizard_step : ℕ → AgreementWizardMode → ℕ
previous_wizard_step step mode = max 1 (skip_back (step - 1) (step - 1) mode)

-- The loop of `nextWizardStep`.
unfoldable pub skip_on : ℕ → ℕ → AgreementWizardMode → ℕ
unfolding is_wizard_step_visible
skip_on zero step mode = step
skip_on (suc fuel) step mode =
    let further = skip_on fuel (step + 1) mode in
    if ltb step last_step && not (is_wizard_step_visible step mode) then further else step

unfoldable pub next_wizard_step : ℕ → AgreementWizardMode → ℕ
next_wizard_step step mode = min last_step (skip_on (last_step - (step + 1)) (step + 1) mode)
