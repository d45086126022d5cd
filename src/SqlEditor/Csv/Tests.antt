-- ===== src/SqlEditor/Csv/Tests.antt =====
-- Runs of the export and of its reader on small results.
use openscale.Base.{ℕ, Text, codes, List, [], ◌∷◌, ◌++◌, map, some, ◌≡◌, refl, Decimal.show}
use openscale.SqlEditor.Csv.{
  Cell, null, number, object, string, Host, csv_cell_value, build_csv, cr, lf, escape_csv_field,
  double_quotes, format_cell_value,
}
use openscale.SqlEditor.Csv.Reader.{read_csv}
use openscale.SqlEditor.Csv.RoundTrip.{read_csv-build_csv}

abbrev host : Host ℕ Text
host = record { string_of = show; locale_of = show; stringify = λ t. t }

abbrev columns : List Text
columns = codes "zone" ∷ (codes "note, \"quoted\"") ∷ []

abbrev rows : List (List (Cell ℕ Text))
rows =
    (number 132 ∷ string (codes "a,b" ++ cr ∷ lf ∷ []) ∷ [])
    ∷ (null ∷ object (codes "{\"k\":1}") ∷ [])
    ∷ []

escaped : escape_csv_field (codes "say \"hi\"") ≡ codes "\"say \"\"hi\"\"\""
unfolding escape_csv_field double_quotes
escaped = refl

null_is_labelled : format_cell_value host null ≡ codes "NULL"
unfolding format_cell_value
null_is_labelled = refl

read_csv-build_csv_example :
    read_csv (build_csv host columns rows) ≡ some (columns ∷ map (map (csv_cell_value host)) rows)
read_csv-build_csv_example = read_csv-build_csv host columns rows tt (tt, (tt, tt))
