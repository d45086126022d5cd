-- ===== src/Pipelines/Confirm/Laws.antt =====
-- When the action runs.
use openscale.Base.{
  ℕ, suc, ◌+◌, ◌/◌, ◌%◌, List, [], ◌∷◌, true, false, ◌==◌, ◌≡◌, refl, ◌∙◌, arith, inl, inr,
  Bool-cases,
}
use openscale.Pipelines.Confirm.{
  ConfirmState, ConfirmEvent, clicks, elapses, rested, on_click, confirm_step, confirm_steps,
}

-- The lengths of the rows of clicks between the ends of four seconds: the current row, and the
-- pairs of clicks in all the rows.
abbrev pub pairs_from : ℕ → List ConfirmEvent → ℕ
pairs_from row [] = row / 2
pairs_from row (clicks true ∷ es) = pairs_from row es
pairs_from row (clicks false ∷ es) = pairs_from (suc row) es
pairs_from row (elapses ∷ es) = row / 2 + pairs_from 0 es

abbrev pub row_from : ℕ → List ConfirmEvent → ℕ
row_from row [] = row
row_from row (clicks true ∷ es) = row_from row es
row_from row (clicks false ∷ es) = row_from (suc row) es
row_from row (elapses ∷ es) = row_from 0 es

-- A state inside a row of clicks, after `before` actions in earlier rows.
record Inside (before row : ℕ) (s : ConfirmState) : Type 0 where
  armed : s.confirming ≡ (row % 2 == 1)
  timed : s.timer ≡ s.confirming
  counted : s.actions ≡ before + row / 2

Inside-click :
    (before row : ℕ) (s : ConfirmState) → Inside before row s → Inside before (suc row) (on_click s)
unfolding on_click
Inside-click before row s v = elim (Bool-cases s.confirming) [
  | inl armed ↦ rw armed (record { armed = ground arith; timed = refl; counted = ground arith })
  | inr free ↦ rw free (record { armed = ground arith; timed = refl; counted = ground arith })
]

Inside-elapse :
    (before row : ℕ) (s : ConfirmState)
    → Inside before row s
    → Inside (before + row / 2) 0 (confirm_step s elapses)
unfolding confirm_step
Inside-elapse before row s v = elim (Bool-cases s.timer) [
  | inl armed ↦ rw armed (record { armed = refl; timed = refl; counted = ground arith })
  | inr free ↦
      rw free (record { armed = ground arith; timed = ground arith; counted = ground arith })
]

Inside-steps :
    (before row : ℕ) (s : ConfirmState) (es : List ConfirmEvent)
    → Inside before row s
    → ((confirm_steps s es).actions ≡ before + pairs_from row es)
      × ((confirm_steps s es).confirming ≡ (row_from row es % 2 == 1))
unfolding confirm_steps confirm_step
Inside-steps before row s [] v = (v.counted, v.armed)
Inside-steps before row s (clicks true ∷ es) v = Inside-steps before row s es v
Inside-steps before row s (clicks false ∷ es) v =
    Inside-steps before (suc row) (on_click s) es (Inside-click before row s v)
Inside-steps before row s (elapses ∷ es) v =
    let (counted, armed) =
      Inside-steps (before + row / 2) 0 (confirm_step s elapses) es
        (Inside-elapse before row s v) in
    (counted ∙ omega arith, armed)

-- The action runs once for each pair of clicks on the enabled button with no end of the four
-- seconds between them, and the button is armed exactly while a click of the current row waits for
-- its second one.
confirm_steps_lem :
    (es : List ConfirmEvent)
    → ((confirm_steps rested es).actions ≡ pairs_from 0 es)
      × ((confirm_steps rested es).confirming ≡ (row_from 0 es % 2 == 1))
confirm_steps_lem es =
    let (counted, armed) =
      Inside-steps 0 0 rested es (record { armed = refl; timed = refl; counted = omega arith }) in
    (counted ∙ omega arith, armed)
