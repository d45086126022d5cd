-- ===== src/DataCatalog/Tables/Laws.antt =====
-- The requests of a row for its preview.
use openscale.Base.{ℕ, ◌+◌, List, [], ◌∷◌, Bool, true, false, is_some, ◌≡◌, ◌∙◌, refl, arith}
use openscale.DataCatalog.Tables.{
  RowState, collapsed_row, RowEvent, toggles, succeeds, fails, handle_toggle, row_step, row_steps,
}

abbrev pub under_way : Bool → ℕ
under_way true = 1
under_way false = 0

module _ {Preview : Type 0} where
  -- At most one request is under way, and none once a preview is there.
  record IsInTurn (s : RowState Preview) : Type 0 where
    turns : s.calls ≡ s.answers + under_way s.pending
    idle : is_some s.preview ≡ true → s.pending ≡ false

  step-IsInTurn :
      (s : RowState Preview) (e : RowEvent Preview) → IsInTurn s → IsInTurn (row_step s e)
  unfolding row_step handle_toggle
  step-IsInTurn s toggles h = ground arith
  step-IsInTurn s (succeeds p) h = ground arith
  step-IsInTurn s fails h = ground arith

  steps-IsInTurn :
      (s : RowState Preview) (es : List (RowEvent Preview)) → IsInTurn s → IsInTurn (row_steps s es)
  unfolding row_steps
  steps-IsInTurn s [] h = h
  steps-IsInTurn s (e ∷ es) h = steps-IsInTurn (row_step s e) es (step-IsInTurn s e h)

  -- A preview is there, and nothing is under way.
  record IsServed (s : RowState Preview) : Type 0 where
    got : is_some s.preview ≡ true
    rest : s.pending ≡ false

  record IsKept (s t : RowState Preview) : Type 0 where
    served : IsServed t
    calls : t.calls ≡ s.calls

  step-IsKept : (s : RowState Preview) (e : RowEvent Preview) → IsServed s → IsKept s (row_step s e)
  unfolding row_step handle_toggle
  step-IsKept s toggles h = ground arith
  step-IsKept s (succeeds p) h = ground arith
  step-IsKept s fails h = ground arith

  steps-calls :
      (s : RowState Preview) (es : List (RowEvent Preview))
      → IsServed s
      → (row_steps s es).calls ≡ s.calls
  unfolding row_steps
  steps-calls s [] h = refl
  steps-calls s (e ∷ es) h =
      let k = step-IsKept s e h in steps-calls (row_step s e) es k.served ∙ k.calls

  -- Once the preview of a row has come, however the row was expanded and collapsed before, every
  -- request made for it has been answered, and it is never asked for again.
  pub row_steps-once :
      (es fs : List (RowEvent Preview))
      → is_some (row_steps collapsed_row es).preview ≡ true
      → ((row_steps (row_steps collapsed_row es) fs).calls ≡ (row_steps collapsed_row es).calls)
        × ((row_steps collapsed_row es).calls ≡ (row_steps collapsed_row es).answers)
  row_steps-once es fs got =
      let turn = steps-IsInTurn collapsed_row es (record { turns = refl; idle = λ h. refl }) in
      let rest = turn.idle got in
      (
        steps-calls (row_steps collapsed_row es) fs (record { got = got; rest = rest }),
        ground arith,
      )
