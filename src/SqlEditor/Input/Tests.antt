-- ===== src/SqlEditor/Input/Tests.antt =====
-- A query that is run once by the keys, and twice in vain.
use openscale.Base.{ℕ, ◌+◌, ◌≤◌, codes, List, [], ◌∷◌, All, none, true, false, length, ◌≡◌, refl}
use openscale.Search.Matching.{trim, trim_start}
use openscale.SqlEditor.Input.{
  InputEvent, KeyPress, types, presses, clicks_run, can_run, input_step, input_steps, initial_input,
}
use openscale.SqlEditor.Input.Laws.{IsSent, input_steps-sent}

abbrev enter : KeyPress
enter = record { meta = false; ctrl = true; is_enter = true }

abbrev busy : List InputEvent
busy = presses enter ∷ presses enter ∷ clicks_run ∷ types (codes "x") ∷ []

runs_once : (input_steps (initial_input (codes "select 1")) busy).ran ≡ codes "select 1" ∷ []
unfolding input_steps input_step can_run trim trim_start
runs_once = refl

blank_is_not_run : (input_steps (initial_input (codes "  ")) (clicks_run ∷ [])).ran ≡ []
unfolding input_steps input_step can_run trim trim_start
blank_is_not_run = refl

input_steps-sent_example :
    let s = input_steps (initial_input (codes "select 1")) busy in
    All (IsSent {Number = ℕ} {Object = ℕ} (λ sql. none) (codes "8:00") []) s.ran
    × (length s.ran ≤ s.answers + 1)
input_steps-sent_example =
    input_steps-sent {Number = ℕ} {Object = ℕ} (λ sql. none) (codes "8:00") [] (codes "select 1")
      busy
