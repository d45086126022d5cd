-- ===== src/SqlEditor/Input/Laws.antt =====
-- What the editor hands on to be run.
use openscale.Base.{
  ℕ, suc, ◌+◌, ◌≤◌, Text, List, [], ◌∷◌, Option, some, Bool, true, false, not, ◌&&◌, ◌||◌, ◌≡◌,
  refl, arith, length, if◌then◌else◌, All,
}
use openscale.Search.Matching.{trim}
use openscale.SqlEditor.Editor.{QueryOutcome, handle_run}
use openscale.SqlEditor.History.{QueryHistoryEntry}
use openscale.SqlEditor.Input.{
  can_run, InputState, InputEvent, types, presses, clicks_run, clicks_clear, input_step,
  input_steps, run_sql, answered, is_clear_disabled, initial_input,
}

module _ {Number Object : Type 0} (answer : Text → Option (QueryOutcome Number Object)) (now : Text)
    (entries : List (QueryHistoryEntry Number)) where
  -- `handleRun` sends the text to the control-plane.
  -- `handleRun` sends the text, trimmed, to the control-plane.
  abbrev pub IsSent : Text → Type 0
  IsSent sql = (handle_run answer now sql entries).0 ≡ some (trim sql)

  can_run-IsSent : (pending : Bool) (sql : Text) → can_run pending sql ≡ true → IsSent sql
  unfolding can_run handle_run
  can_run-IsSent pending sql h = ground arith

  abbrev pub under_way : Bool → ℕ
  under_way true = 1
  under_way false = 0

  record IsOrderly (s : InputState) : Type 0 where
    sent : All IsSent s.ran
    turns : length s.ran ≡ s.answers + under_way s.pending

  run_sql-IsOrderly :
      (s : InputState) → can_run s.pending s.sql ≡ true → IsOrderly s → IsOrderly (run_sql s)
  unfolding can_run
  run_sql-IsOrderly s h o = record {
    sent = (can_run-IsSent s.pending s.sql h, o.sent);
    turns = ground (arith, o.turns);
  }

  if-IsOrderly :
      (b : Bool) (s t : InputState)
      → (b ≡ true → IsOrderly s)
      → (b ≡ false → IsOrderly t)
      → IsOrderly (if b then s else t)
  if-IsOrderly true s t h o = h refl
  if-IsOrderly false s t h o = o refl

  answered-IsOrderly :
      (s : InputState)
      → s.pending ≡ true
      → IsOrderly s
      → IsOrderly (record s { pending = false; answers = suc s.answers })
  answered-IsOrderly s h o = record { sent = o.sent; turns = ground (arith, o.turns) }

  step-IsOrderly : (s : InputState) (e : InputEvent) → IsOrderly s → IsOrderly (input_step s e)
  unfolding input_step
  step-IsOrderly s (types sql) o =
      if-IsOrderly s.pending s _ (λ h. o) (λ h. record { sent = o.sent; turns = o.turns })
  step-IsOrderly s (presses k) o =
      if-IsOrderly (not s.pending && ((k.meta || k.ctrl) && k.is_enter)) _ s
        (λ h.
          if-IsOrderly (can_run s.pending s.sql) (run_sql s) s (λ r. run_sql-IsOrderly s r o)
            (λ r. o))
        (λ h. o)
  step-IsOrderly s clicks_run o =
      if-IsOrderly (not (can_run s.pending s.sql)) s (run_sql s) (λ h. o)
        (λ h. run_sql-IsOrderly s (ground arith) o)
  step-IsOrderly s clicks_clear o =
      if-IsOrderly (is_clear_disabled s.pending s.sql) s _ (λ h. o)
        (λ h. record { sent = o.sent; turns = o.turns })
  step-IsOrderly s answered o = if-IsOrderly s.pending _ s (λ h. answered-IsOrderly s h o) (λ h. o)

  steps-IsOrderly :
      (s : InputState) (es : List InputEvent) → IsOrderly s → IsOrderly (input_steps s es)
  unfolding input_steps
  steps-IsOrderly s [] o = o
  steps-IsOrderly s (e ∷ es) o = steps-IsOrderly (input_step s e) es (step-IsOrderly s e o)

  -- Whatever the user types, presses and clicks in an editor that starts with some text, and however
  -- long the answers take: every text that the editor hands on is one that `handleRun` sends, trimmed
  -- and not blank, and at most one is under way.
  pub input_steps-sent :
      (sql : Text) (es : List InputEvent)
      → let s = input_steps (initial_input sql) es in
        All IsSent s.ran × (length s.ran ≤ s.answers + 1)
  input_steps-sent sql es =
      let o = steps-IsOrderly (initial_input sql) es (record { sent = tt; turns = refl }) in
      (o.sent, ground (arith, o.turns))
