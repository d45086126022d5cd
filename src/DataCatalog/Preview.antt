-- ===== src/DataCatalog/Preview.antt =====
-- frontend/src/domains/data-catalog/application/useTablePreview.ts: the two queries of a preview, with
-- the quoted reference of domain/rules.ts. The gateway's answers are an argument.
mod Laws
mod Tests
use openscale.Base.{Text, codes, List, [], ◌∷◌, ◌++◌, Option, none, some, get_elem?}
use openscale.SqlEditor.Csv.{Cell}
use openscale.SqlEditor.Editor.{QueryResult, QueryOutcome, result, query_error}
use openscale.Search.Results.{quoted_table_ref}

pub record TablePreviewResult (Number Object : Type 0) : Type 0 where
  pub row_count : Option Number
  pub row_count_error : Option Text
  pub sample : Option (QueryResult Number Object)
  pub sample_error : Option Text

abbrev pub count_sql : Text → Text → Text
count_sql schema table = codes "SELECT COUNT(*) FROM " ++ quoted_table_ref schema table

abbrev pub sample_sql : Text → Text → Text
sample_sql schema table =
    codes "SELECT * FROM " ++ (quoted_table_ref schema table ++ codes " LIMIT 20")

module _ {Number Object : Type 0} where
  -- `rows[0]?.[0]`
  abbrev pub first_cell : List (List (Cell Number Object)) → Option (Cell Number Object)
  first_cell [] = none
  first_cell (row ∷ rows) = get_elem? row 0

  -- `to_number` is the host's `Number(cell ?? 0)`.
  abbrev pub preview_of :
      (Option (Cell Number Object) → Number)
      → QueryOutcome Number Object
      → QueryOutcome Number Object
      → TablePreviewResult Number Object
  preview_of to_number (result count) (result sample) = record {
    row_count = some (to_number (first_cell count.rows));
    row_count_error = none;
    sample = some sample;
    sample_error = none;
  }
  preview_of to_number (result count) (query_error e) = record {
    row_count = some (to_number (first_cell count.rows));
    row_count_error = none;
    sample = none;
    sample_error = some e;
  }
  preview_of to_number (query_error e) (result sample) = record {
    row_count = none;
    row_count_error = some e;
    sample = some sample;
    sample_error = none;
  }
  preview_of to_number (query_error e) (query_error e') = record {
    row_count = none;
    row_count_error = some e;
    sample = none;
    sample_error = some e';
  }

  -- `Promise.all`: one request that fails, `none`, fails the preview.
  abbrev pub both :
      (Option (Cell Number Object) → Number)
      → Option (QueryOutcome Number Object)
      → Option (QueryOutcome Number Object)
      → Option (TablePreviewResult Number Object)
  both to_number none sample = none
  both to_number (some count) none = none
  both to_number (some count) (some sample) = some (preview_of to_number count sample)

  -- The mutation, over what `runQuery` gives for a text.
  unfoldable pub table_preview :
      (Option (Cell Number Object) → Number)
      → (Text → Option (QueryOutcome Number Object))
      → Text
      → Text
      → Option (TablePreviewResult Number Object)
  table_preview to_number run_query schema table =
      both to_number (run_query (count_sql schema table)) (run_query (sample_sql schema table))
