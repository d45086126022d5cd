-- ===== src/DataCatalog/Tables.antt =====
-- frontend/src/domains/data-catalog/ui/PostgresTablesPanel.tsx: a row that fetches its preview when it
-- is first expanded.
mod Laws
mod Tests
use openscale.Base.{
  ℕ, suc, ◌==◌, ◌&&◌, Text, codes, List, [], ◌∷◌, ◌++◌, Option, none, some, Bool, true, false, not,
  is_some, length, if◌then◌else◌,
}
use openscale.Base.Decimal.{show}
use openscale.SqlEditor.Editor.{qualified_table_name}
use openscale.Search.Results.{CatalogTable}

-- `calls` counts the requests for a preview and `answers` what came back; the mutation keeps the last
-- answer: a preview, or that it failed.
pub record RowState (Preview : Type 0) : Type 0 where
  pub expanded : Bool
  pub pending : Bool
  pub preview : Option Preview
  pub is_error : Bool
  pub calls : ℕ
  pub answers : ℕ

-- What can happen to a row. An answer comes only to a request that is under way.
pub data RowEvent (Preview : Type 0) : Type 0 where
  toggles : RowEvent Preview
  succeeds : Preview → RowEvent Preview
  fails : RowEvent Preview

-- What an expanded row shows under its columns.
pub data PreviewView (Preview : Type 0) : Type 0 where
  nothing : PreviewView Preview
  note : Text → PreviewView Preview
  shown : Preview → PreviewView Preview

module _ {Preview : Type 0} where
  abbrev pub collapsed_row : RowState Preview
  collapsed_row = record {
    expanded = false;
    pending = false;
    preview = none;
    is_error = false;
    calls = 0;
    answers = 0;
  }

  -- `preview.mutate(…)`
  abbrev pub mutate : RowState Preview → RowState Preview
  mutate s = record s { pending = true; preview = none; is_error = false; calls = suc s.calls }

  unfoldable pub handle_toggle : RowState Preview → RowState Preview
  handle_toggle s =
      let after = record s { expanded = not s.expanded } in
      if not s.expanded && (not (is_some s.preview) && not s.pending) then mutate after else after

  unfoldable pub row_step : RowState Preview → RowEvent Preview → RowState Preview
  unfolding handle_toggle
  row_step s toggles = handle_toggle s
  row_step s (succeeds p) =
      if s.pending
      then record s { pending = false; preview = some p; answers = suc s.answers }
      else s
  row_step s fails =
      if s.pending
      then record s { pending = false; is_error = true; answers = suc s.answers }
      else s

  unfoldable pub row_steps : RowState Preview → List (RowEvent Preview) → RowState Preview
  row_steps s [] = s
  row_steps s (e ∷ es) = row_steps (row_step s e) es

  abbrev pub or_nothing : Option Preview → PreviewView Preview
  or_nothing none = nothing
  or_nothing (some p) = shown p

  unfoldable pub preview_view : RowState Preview → PreviewView Preview
  preview_view s =
      if s.pending
      then note (codes "Loading preview…")
      else if s.is_error
      then note (codes "Failed to load preview.")
      else or_nothing s.preview

abbrev pub column_words : List (Text × Text) → List Text
column_words [] = []
column_words ((name, kind) ∷ cs) = name ∷ kind ∷ column_words cs

-- The texts of a row above its preview, the mark of the button first.
unfoldable pub row_words : Bool → CatalogTable → List Text
unfolding qualified_table_name
row_words expanded table =
    (if expanded then codes "▾" else codes "▸")
    ∷ qualified_table_name table.schema table.table_name
    ∷ (show (length table.columns)
        ++ (codes " column" ++ (if length table.columns == 1 then [] else codes "s")))
    ∷ (if expanded then column_words table.columns else [])

-- What the panel shows under its heading: a note, or a row for each table.
pub data PanelView : Type 0 where
  note : Text → PanelView
  tables : List CatalogTable → PanelView

-- The arguments are `isLoading`, `isError` and `data`.
unfoldable pub postgres_tables_panel : Bool → Bool → Option (List CatalogTable) → PanelView
postgres_tables_panel true is_error result = PanelView.note (codes "Loading schema…")
postgres_tables_panel false true result =
    PanelView.note (codes "Failed to load schema. Is the control-plane running?")
postgres_tables_panel false false none =
    PanelView.note (codes "Failed to load schema. Is the control-plane running?")
postgres_tables_panel false false (some []) =
    PanelView.note
      (codes "No tables yet -- run jobs from Pipelines to populate Gold and feature tables.")
postgres_tables_panel false false (some (t ∷ ts)) = tables (t ∷ ts)
