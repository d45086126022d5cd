-- ===== src/SqlEditor/Panels.antt =====
-- frontend/src/domains/sql-editor/ui: CatalogPanel.tsx, QueryHistoryPanel.tsx, ResultsTable.tsx and what
-- SqlEditorScreen.tsx shows of them.
mod Tests
use openscale.Base.{
  Text, codes, List, [], ◌∷◌, ◌++◌, map, Option, none, some, Bool, true, false, if◌then◌else◌,
}
use openscale.SqlEditor.Csv.{
  Cell, null, undefined, Host, is_numeric_cell, format_cell_value, build_csv,
}
use openscale.SqlEditor.Editor.{
  QueryResult, QueryOutcome, result, query_error, Selection, insert_at_cursor, qualified_table_name,
}
use openscale.SqlEditor.History.{QueryHistoryEntry}
use openscale.Search.Results.{CatalogTable}

-- A row of the schema browser: the label of its button and its mark, what a click on its name inserts,
-- and the names and types of the columns while it is expanded.
pub record CatalogRow : Type 0 where
  pub label : Text
  pub mark : Text
  pub inserts : Text
  pub columns : List (Text × Text)

unfoldable pub table_row : Bool → CatalogTable → CatalogRow
unfolding qualified_table_name
table_row expanded table =
    let name = qualified_table_name table.schema table.table_name in
    record {
      label =
          if expanded
          then codes "Collapse " ++ (name ++ codes " columns")
          else codes "Expand " ++ (name ++ codes " columns");
      mark = if expanded then codes "▾" else codes "▸";
      inserts = name;
      columns = if expanded then table.columns else [];
    }

-- A note, or the tables in the order of the answer.
pub data CatalogView : Type 0 where
  note : Text → CatalogView
  tables : List CatalogTable → CatalogView

-- The arguments are `isLoading`, `isError` and `data`.
unfoldable pub catalog_panel : Bool → Bool → Option (List CatalogTable) → CatalogView
catalog_panel true is_error data_ = CatalogView.note (codes "Loading schema…")
catalog_panel false true data_ =
    CatalogView.note (codes "Failed to load schema. Is the control-plane running?")
catalog_panel false false none =
    CatalogView.note
      (codes "No tables yet -- run jobs from Pipelines to populate Gold and feature tables.")
catalog_panel false false (some []) =
    CatalogView.note
      (codes "No tables yet -- run jobs from Pipelines to populate Gold and feature tables.")
catalog_panel false false (some (t ∷ ts)) = tables (t ∷ ts)

-- `new Date(iso).toLocaleTimeString()`, `n.toLocaleString()`, `n === 1`, `n < 1000`, `${n}` and
-- `(n / 1000).toFixed(2)`.
pub record Formats (Number : Type 0) : Type 0 where
  pub format_ran_at : Text → Text
  pub locale_of : Number → Text
  pub is_one : Number → Bool
  pub is_below_thousand : Number → Bool
  pub string_of : Number → Text
  pub fixed_thousandth : Number → Text

-- An entry of the history: what a click on it loads into the editor, and its texts.
pub record HistoryRow : Type 0 where
  pub selects : Text
  pub is_good : Bool
  pub pill : Text
  pub words : Text

module _ {Number : Type 0} (formats : Formats Number) where
  abbrev pub rows_words : Bool → Option Number → Text
  rows_words true (some n) = codes " · " ++ (formats.locale_of n ++ codes " rows")
  rows_words _ _ = []

  unfoldable pub history_row : QueryHistoryEntry Number → HistoryRow
  history_row entry = record {
    selects = entry.sql;
    is_good = entry.success;
    pill = if entry.success then codes "ok" else codes "error";
    words = formats.format_ran_at entry.ran_at ++ rows_words entry.success entry.row_count;
  }

  -- Whether the button that clears the history is there, and the rows; without rows, a note.
  unfoldable pub query_history_panel :
      List (QueryHistoryEntry Number) → Bool × Option Text × List HistoryRow
  query_history_panel [] =
      (false, some (codes "Queries you run appear here, kept in this browser only."), [])
  query_history_panel (e ∷ es) = (true, none, map history_row (e ∷ es))

  unfoldable pub format_duration_ms : Number → Text
  format_duration_ms ms =
      if formats.is_below_thousand ms
      then formats.string_of ms ++ codes "ms"
      else formats.fixed_thousandth ms ++ codes "s"

-- A cell of the table: whether it stands right-aligned, whether it is subtle, and its text.
pub record CellView : Type 0 where
  pub is_right : Bool
  pub is_subtle : Bool
  pub shown : Text

-- What the results show: the summary, the file the export button downloads unless it is disabled,
-- and a note or the table with its header.
pub data Grid : Type 0 where
  note : Text → Grid
  table : List Text → List (List CellView) → Grid

pub record ResultsView : Type 0 where
  pub summary : Text
  pub export : Option Text
  pub grid : Grid

-- What stands under the editor: the message of the control-plane unless it is empty, the results,
-- or a hint. `isPending` tells whether a query is under way.
pub data Below : Type 0 where
  message : Text → Below
  results : ResultsView → Below
  hint : Text → Below

module _ {Number Object : Type 0} (host : Host Number Object) (formats : Formats Number) where
  abbrev pub is_subtle_cell : Cell Number Object → Bool
  is_subtle_cell null = true
  is_subtle_cell undefined = true
  is_subtle_cell _ = false

  unfoldable pub cell_view : Cell Number Object → CellView
  unfolding is_numeric_cell format_cell_value
  cell_view cell = record {
    is_right = is_numeric_cell cell;
    is_subtle = is_subtle_cell cell;
    shown = format_cell_value host cell;
  }

  unfoldable pub summary_of : QueryResult Number Object → Text
  summary_of r =
      formats.locale_of r.row_count
      ++ (codes " row"
          ++ ((if formats.is_one r.row_count then [] else codes "s")
              ++ (codes " · "
                  ++ (format_duration_ms formats r.duration_ms
                      ++ (if r.truncated then codes " · results truncated at 500 rows" else [])))))

  abbrev pub export_of : List Text → List (List (Cell Number Object)) → Option Text
  export_of columns [] = none
  export_of columns (row ∷ rows) = some (build_csv host columns (row ∷ rows))

  abbrev pub grid_of : List Text → List (List (Cell Number Object)) → Grid
  grid_of columns [] = Grid.note (codes "Query succeeded with no rows returned.")
  grid_of columns (row ∷ rows) = Grid.table columns (map (map cell_view) (row ∷ rows))

  unfoldable pub results_table : QueryResult Number Object → ResultsView
  results_table r = record {
    summary = summary_of r;
    export = export_of r.columns r.rows;
    grid = grid_of r.columns r.rows;
  }

  abbrev pub idle_hint : Bool → Below
  idle_hint is_pending =
      hint (if is_pending then codes "Running query…" else codes "Run a query to see results here.")

  unfoldable pub below_editor : Bool → Option (QueryOutcome Number Object) → Below
  below_editor is_pending none = idle_hint is_pending
  below_editor is_pending (some (query_error [])) = idle_hint is_pending
  below_editor is_pending (some (query_error (c ∷ cs))) = message (c ∷ cs)
  below_editor is_pending (some (result r)) = results (results_table r)
