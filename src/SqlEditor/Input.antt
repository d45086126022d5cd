-- ===== src/SqlEditor/Input.antt =====
-- frontend/src/domains/sql-editor/ui/QueryEditor.tsx: the text area, its keys and its buttons, and
-- the screen's handlers behind them.
mod Laws
mod Tests
use openscale.Base.{
  ℕ, suc, Text, List, [], ◌∷◌, Bool, true, false, not, ◌&&◌, ◌||◌, if◌then◌else◌, length,
}
use openscale.Search.Matching.{trim, is_empty}

unfoldable pub can_run : Bool → Text → Bool
can_run pending sql = not pending && not (is_empty (trim sql))

pub record KeyPress : Type 0 where
  pub meta : Bool
  pub ctrl : Bool
  pub is_enter : Bool

-- What the user does, and the answer to a query; a disabled text area takes no input and no key, a
-- disabled button no click.
pub data InputEvent : Type 0 where
  types : Text → InputEvent
  presses : KeyPress → InputEvent
  clicks_run : InputEvent
  clicks_clear : InputEvent
  answered : InputEvent

-- The text, whether a query is under way, the texts handed to `onRun`, newest first, and the number of
-- answers.
pub record InputState : Type 0 where
  pub sql : Text
  pub pending : Bool
  pub ran : List Text
  pub answers : ℕ

abbrev pub initial_input : Text → InputState
initial_input sql = record { sql = sql; pending = false; ran = []; answers = 0 }

-- `onRun`: the screen's mutation is under way from then on.
abbrev pub run_sql : InputState → InputState
run_sql s = record s { pending = true; ran = s.sql ∷ s.ran }

abbrev pub is_run_key : KeyPress → Bool
is_run_key k = (k.meta || k.ctrl) && k.is_enter

-- `disabled` of the button that clears the text.
abbrev pub is_clear_disabled : Bool → Text → Bool
is_clear_disabled pending sql = pending || is_empty sql

unfoldable pub input_step : InputState → InputEvent → InputState
unfolding can_run
input_step s (types sql) = if s.pending then s else record s { sql = sql }
input_step s (presses k) =
    if not s.pending && is_run_key k then if can_run s.pending s.sql then run_sql s else s else s
input_step s clicks_run = if not (can_run s.pending s.sql) then s else run_sql s
input_step s clicks_clear = if is_clear_disabled s.pending s.sql then s else record s { sql = [] }
input_step s answered =
    if s.pending then record s { pending = false; answers = suc s.answers } else s

unfoldable pub input_steps : InputState → List InputEvent → InputState
input_steps s [] = s
input_steps s (e ∷ es) = input_steps (input_step s e) es
