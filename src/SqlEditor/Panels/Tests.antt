-- ===== src/SqlEditor/Panels/Tests.antt =====
-- What the panels show of small data.
use openscale.Base.{ℕ, Text, codes, [], ◌∷◌, some, none, true, false, ◌≡◌, refl, ltb, ◌==◌}
use openscale.Base.Decimal.{show}
use openscale.SqlEditor.Csv.{null, number, Host, is_numeric_cell, format_cell_value}
use openscale.SqlEditor.Editor.{QueryResult, query_error, qualified_table_name}
use openscale.SqlEditor.Panels.{
  Formats, table_row, query_history_panel, history_row, results_table, summary_of,
  format_duration_ms, cell_view, below_editor, hint,
}

abbrev host : Host ℕ Text
host = record { string_of = show; locale_of = show; stringify = λ t. t }

abbrev formats : Formats ℕ
formats = record {
  format_ran_at = λ t. t;
  locale_of = show;
  is_one = λ n. n == 1;
  is_below_thousand = λ n. ltb n 1000;
  string_of = show;
  fixed_thousandth = λ n. codes "1.50";
}

abbrev one_row : QueryResult ℕ Text
one_row = record {
  columns = codes "zone" ∷ codes "trips" ∷ [];
  rows = (null ∷ number 7 ∷ []) ∷ [];
  row_count = 1;
  duration_ms = 4;
  truncated = false;
}

sums_up : (results_table host formats one_row).summary ≡ codes "1 row · 4ms"
unfolding results_table summary_of format_duration_ms show
sums_up = refl

in_seconds : format_duration_ms formats 1500 ≡ codes "1.50s"
unfolding format_duration_ms
in_seconds = refl

null_is_subtle : (cell_view host formats null).is_subtle ≡ true
unfolding cell_view is_numeric_cell format_cell_value
null_is_subtle = refl

empty_message_is_none :
    below_editor host formats true (some (query_error [])) ≡ hint (codes "Running query…")
unfolding below_editor
empty_message_is_none = refl

a_failed_query :
    query_history_panel formats (
      record { sql = codes "select 1"; ran_at = codes "8:00"; success = false; row_count = none }
      ∷ [])
    ≡ (
      true,
      none,
      record {
        selects = codes "select 1";
        is_good = false;
        pill = codes "error";
        words = codes "8:00";
      }
          ∷ [],
    )
unfolding query_history_panel history_row
a_failed_query = refl

a_public_table :
    (table_row true
      (record { schema = codes "public"; table_name = codes "gold"; columns = [] })).label
    ≡ codes "Collapse gold columns"
unfolding table_row qualified_table_name
a_public_table = refl
