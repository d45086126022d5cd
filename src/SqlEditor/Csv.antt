-- ===== src/SqlEditor/Csv.antt =====
-- frontend/src/domains/sql-editor/domain/rules.ts: result cells as text, and the CSV export.
pub mod Reader
pub mod RoundTrip
mod Tests
use openscale.Base.{
  ℕ, Text, codes, join, List, [], ◌∷◌, ◌++◌, map, Bool, true, false, ◌||◌, any, if◌then◌else◌, ◌==◌,
}

-- `unknown`, as JSON delivers it. A number and an object are values of the host language; only
-- their texts matter here.
pub data Cell (Number Object : Type 0) : Type 0 where
  null : Cell Number Object
  undefined : Cell Number Object
  boolean : Bool → Cell Number Object
  number : Number → Cell Number Object
  object : Object → Cell Number Object
  string : Text → Cell Number Object

-- `String(b)`
abbrev pub boolean_text : Bool → Text
boolean_text true = codes "true"
boolean_text false = codes "false"

-- The host's texts of numbers and objects: `String(n)`, `n.toLocaleString(…)`, `JSON.stringify(o)`.
pub record Host (Number Object : Type 0) : Type 0 where
  pub string_of : Number → Text
  pub locale_of : Number → Text
  pub stringify : Object → Text

module _ {Number Object : Type 0} where
  unfoldable pub is_numeric_cell : Cell Number Object → Bool
  is_numeric_cell (number n) = true
  is_numeric_cell _ = false

  module _ (host : Host Number Object) where
    unfoldable pub format_cell_value : Cell Number Object → Text
    format_cell_value null = codes "NULL"
    format_cell_value undefined = codes "NULL"
    format_cell_value (boolean b) = boolean_text b
    format_cell_value (number n) = host.locale_of n
    format_cell_value (object o) = host.stringify o
    format_cell_value (string s) = s

    unfoldable pub csv_cell_value : Cell Number Object → Text
    csv_cell_value null = []
    csv_cell_value undefined = []
    csv_cell_value (object o) = host.stringify o
    csv_cell_value (boolean b) = boolean_text b
    csv_cell_value (number n) = host.string_of n
    csv_cell_value (string s) = s

abbrev pub quote : ℕ
quote = b'"'

abbrev pub comma : ℕ
comma = b','

abbrev pub cr : ℕ
cr = 13

abbrev pub lf : ℕ
lf = 10

-- The class `[",\r\n]`.
abbrev pub is_special : ℕ → Bool
is_special c = c == quote || (c == comma || (c == cr || c == lf))

-- `field.replace(/"/g, '""')`
unfoldable pub double_quotes : Text → Text
double_quotes [] = []
double_quotes (c ∷ cs) =
    let rest = double_quotes cs in if c == quote then quote ∷ quote ∷ rest else c ∷ rest

unfoldable pub escape_csv_field : Text → Text
escape_csv_field field =
    if any is_special field then quote ∷ double_quotes field ++ quote ∷ [] else field

abbrev pub csv_line : List Text → Text
csv_line fields = join (comma ∷ []) (map escape_csv_field fields)

unfoldable pub build_csv :
    {Number Object : Type 0}
    → Host Number Object
    → List Text
    → List (List (Cell Number Object))
    → Text
build_csv host columns rows =
    join (cr ∷ lf ∷ [])
      (csv_line columns ∷ map (λ row. csv_line (map (csv_cell_value host) row)) rows)
