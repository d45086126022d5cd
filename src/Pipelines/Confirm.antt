-- ===== src/Pipelines/Confirm.antt =====
-- The buttons that ask twice: `ClearHistoryButton` of frontend/src/domains/pipelines/ui/JobRunsTable.tsx
-- and frontend/src/domains/pipelines/ui/ClearDataButton.tsx. The first click arms the button for four
-- seconds, a second one runs its action.
mod Laws
mod Tests
use openscale.Base.{ℕ, ◌+◌, suc, List, [], ◌∷◌, Bool, true, false, if◌then◌else◌}

abbrev pub confirm_timeout_ms : ℕ
confirm_timeout_ms = 4000

-- `timer` says that the timeout of the effect on `[confirming]` is pending; `actions` counts the
-- calls of `onClear`, or of `mutate` with the `reset` job.
pub record ConfirmState : Type 0 where
  pub confirming : Bool
  pub timer : Bool
  pub actions : ℕ

abbrev pub rested : ConfirmState
rested = record { confirming = false; timer = false; actions = 0 }

-- `clicks disabled`; a disabled button ignores the click. `elapses` is the end of the four seconds.
pub data ConfirmEvent : Type 0 where
  clicks : Bool → ConfirmEvent
  elapses : ConfirmEvent

-- The effect and its clean-up: a timeout is pending exactly while the button is armed.
abbrev pub set_confirming : Bool → ConfirmState → ConfirmState
set_confirming b s = record s { confirming = b; timer = b }

-- `onClick`
unfoldable pub on_click : ConfirmState → ConfirmState
on_click s =
    if s.confirming
    then set_confirming false (record s { actions = suc s.actions })
    else set_confirming true s

unfoldable pub confirm_step : ConfirmState → ConfirmEvent → ConfirmState
confirm_step s (clicks disabled) = if disabled then s else on_click s
confirm_step s elapses = if s.timer then set_confirming false s else s

unfoldable pub confirm_steps : ConfirmState → List ConfirmEvent → ConfirmState
confirm_steps s [] = s
confirm_steps s (e ∷ es) = confirm_steps (confirm_step s e) es
