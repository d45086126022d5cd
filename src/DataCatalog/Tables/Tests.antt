-- ===== src/DataCatalog/Tables/Tests.antt =====
-- A row that is expanded, answered, collapsed and expanded again.
use openscale.Base.{ℕ, codes, List, [], ◌∷◌, some, true, false, is_some, ◌≡◌, refl}
use openscale.DataCatalog.Tables.{
  RowEvent, collapsed_row, toggles, succeeds, fails, row_steps, handle_toggle, row_step,
  preview_view, shown, postgres_tables_panel, PanelView,
}
use openscale.DataCatalog.Tables.Laws.{row_steps-once}

abbrev looked : List (RowEvent ℕ)
looked = toggles ∷ toggles ∷ toggles ∷ succeeds 7 ∷ []

looked-answered : is_some (row_steps collapsed_row looked).preview ≡ true
unfolding row_steps row_step handle_toggle
looked-answered = refl

looked-shown : preview_view (row_steps collapsed_row looked) ≡ shown 7
unfolding row_steps row_step handle_toggle preview_view
looked-shown = refl

-- A preview that failed is asked for again when the row is next expanded.
asks_again :
    (row_steps (collapsed_row {Preview = ℕ}) (toggles ∷ fails ∷ toggles ∷ toggles ∷ [])).calls ≡ 2
unfolding row_steps row_step handle_toggle
asks_again = refl

row_steps-once_example :
    ((row_steps (row_steps collapsed_row looked) (toggles ∷ toggles ∷ [])).calls
      ≡ (row_steps collapsed_row looked).calls)
    × ((row_steps collapsed_row looked).calls ≡ (row_steps collapsed_row looked).answers)
row_steps-once_example = row_steps-once looked (toggles ∷ toggles ∷ []) looked-answered

without_tables :
    postgres_tables_panel false false (some [])
    ≡ PanelView.note
        (codes "No tables yet -- run jobs from Pipelines to populate Gold and feature tables.")
unfolding postgres_tables_panel
without_tables = refl
