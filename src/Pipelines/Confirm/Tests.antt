-- ===== src/Pipelines/Confirm/Tests.antt =====
-- A click, a pause of four seconds, and two clicks.
use openscale.Base.{List, [], ◌∷◌, true, false, ◌≡◌, refl}
use openscale.Pipelines.Confirm.{
  ConfirmEvent, clicks, elapses, rested, on_click, confirm_step, confirm_steps,
}

abbrev slow : List ConfirmEvent
slow = clicks false ∷ elapses ∷ clicks false ∷ clicks true ∷ clicks false ∷ []

acts_once : (confirm_steps rested slow).actions ≡ 1
unfolding confirm_steps confirm_step on_click
acts_once = refl
