-- ===== src/SqlEditor/Editor.antt =====
-- frontend/src/domains/sql-editor/ui/SqlEditorScreen.tsx: the text, the run of a query and the
-- insertion of a name; domain/rules.ts: `isQueryError`, `formatDurationMs`, `qualifiedTableName`.
mod Laws
mod Tests
use openscale.Base.{
  ℕ, ◌+◌, Text, codes, text_eq, List, [], ◌∷◌, ◌++◌, Option, none, some, Bool, true, false, not,
  if◌then◌else◌, length, take, drop,
}
use openscale.Search.Matching.{trim, is_empty}
use openscale.SqlEditor.Csv.{Cell}
use openscale.SqlEditor.History.{QueryHistoryEntry, add_entry}

pub record QueryResult (Number Object : Type 0) : Type 0 where
  pub columns : List Text
  pub rows : List (List (Cell Number Object))
  pub row_count : Number
  pub duration_ms : Number
  pub truncated : Bool

-- A result, or the body with an `error`.
pub data QueryOutcome (Number Object : Type 0) : Type 0 where
  result : QueryResult Number Object → QueryOutcome Number Object
  query_error : Text → QueryOutcome Number Object

module _ {Number Object : Type 0} where
  abbrev pub is_query_error : QueryOutcome Number Object → Bool
  is_query_error (result r) = false
  is_query_error (query_error e) = true

  abbrev pub row_count_of : QueryOutcome Number Object → Option Number
  row_count_of (result r) = some r.row_count
  row_count_of (query_error e) = none

  -- `handleRun` and its `onSuccess`: the query sent, and the history once the answer is there.
  -- `answer` is what the control-plane gives for a query, or none when the request fails; `now` is
  -- the time of the answer.
  unfoldable pub handle_run :
      (Text → Option (QueryOutcome Number Object))
      → Text
      → Text
      → List (QueryHistoryEntry Number)
      → Option Text × List (QueryHistoryEntry Number)
  handle_run answer now sql entries =
      let trimmed = trim sql in
      if is_empty trimmed then (none, entries) else elim (answer trimmed) [
        | none ↦ (some trimmed, entries)
        | some data_ ↦ (
          some trimmed,
          add_entry
              (record {
                sql = trimmed;
                ran_at = now;
                success = not (is_query_error data_);
                row_count = row_count_of data_;
              })
              entries,
        )
      ]

-- The selection of the text area, if it is mounted: start and end.
abbrev pub Selection : Type 0
Selection = Option (ℕ × ℕ)

-- `insertAtCursor`: the new text, and where the cursor goes.
unfoldable pub insert_at_cursor : Text → Selection → Text → Text × Option ℕ
insert_at_cursor text none sql = (if is_empty sql then text else sql ++ (codes " " ++ text), none)
insert_at_cursor text (some (start, end)) sql =
    (take start sql ++ (text ++ drop end sql), some (start + length text))

unfoldable pub qualified_table_name : Text → Text → Text
qualified_table_name schema table =
    if text_eq schema (codes "public") then table else schema ++ (codes "." ++ table)
