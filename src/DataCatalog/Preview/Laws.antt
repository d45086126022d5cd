-- ===== src/DataCatalog/Preview/Laws.antt =====
-- What the quoted reference names, by the rules of SQL for quoted identifiers.
use openscale.Base.{
  ℕ, Text, [], ◌∷◌, ◌++◌, Option, none, some, Bool, false, any, ◌==◌, if◌then◌else◌, ◌≡◌, refl, ap,
  arith,
}
use openscale.Search.Results.{quoted_table_ref}

abbrev pub quote : ℕ
quote = b'"'

abbrev pub has_quote : Text → Bool
has_quote = any (λ c. c == quote)

-- Puts a code unit in front of the identifier read.
abbrev pub onto_name : ℕ → Option (Text × Text) → Option (Text × Text)
onto_name c none = none
onto_name c (some (name, rest)) = some (c ∷ name, rest)

-- The reader of an identifier behind its opening quote: up to the closing quote, with two quotes
-- for one; `pending` after a quote that may be the first of two.
pub data Reading : Type 0 where
  inside pending : Reading

unfoldable pub read_name : Reading → Text → Option (Text × Text)
read_name inside [] = none
read_name pending [] = some ([], [])
read_name inside (c ∷ cs) =
    let closing = read_name pending cs in
    let more = onto_name c (read_name inside cs) in if c == quote then closing else more
read_name pending (c ∷ cs) =
    let doubled = onto_name c (read_name inside cs) in
    if c == quote then doubled else some ([], c ∷ cs)

-- Behind a first identifier: a dot, a quoted identifier, and the end.
unfoldable pub read_second : Text → Text → Option (Text × Text)
read_second schema (c ∷ d ∷ cs) =
    let last = read_name inside cs in
    if c == b'.'
    then (if d == quote
        then elim last [
          | none ↦ none
          | some (name, rest) ↦ elim rest [ [] ↦ some (schema, name) | e ∷ es ↦ none ]
        ]
        else none)
    else none
read_second schema _ = none

unfoldable pub read_ref : Text → Option (Text × Text)
read_ref [] = none
read_ref (c ∷ cs) =
    let first = read_name inside cs in
    if c == quote
    then elim first [ none ↦ none | some (schema, rest) ↦ read_second schema rest ]
    else none

read_name-plain :
    (name rest : Text)
    → has_quote name ≡ false
    → read_name pending rest ≡ some ([], rest)
    → read_name inside (name ++ quote ∷ rest) ≡ some (name, rest)
unfolding read_name
read_name-plain [] rest h k = k
read_name-plain (c ∷ cs) rest h k =
    let plain : (c == quote) ≡ false = ground arith in
    let others : has_quote cs ≡ false = ground arith in
    rw plain (ap (onto_name c) (read_name-plain cs rest others k))

-- A reference to a table whose schema and name have no quote in them is read back as that schema
-- and that name.
read_ref-quoted_table_ref :
    (schema table : Text)
    → has_quote schema ≡ false
    → has_quote table ≡ false
    → read_ref (quoted_table_ref schema table) ≡ some (schema, table)
unfolding read_name read_ref read_second quoted_table_ref
read_ref-quoted_table_ref schema table h k =
    let first = read_name-plain schema (46 ∷ quote ∷ (table ++ quote ∷ [])) h refl in
    let second = read_name-plain table [] k refl in
    rw (first, read_ref) (rw (second, read_second) refl)
