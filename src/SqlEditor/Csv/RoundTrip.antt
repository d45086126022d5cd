-- ===== src/SqlEditor/Csv/RoundTrip.antt =====
-- What the export writes, the reader of RFC 4180 reads back.
use openscale.Base.{
  Text, List, [], ◌∷◌, ◌++◌, map, join, Option, some, ◌≡◌, refl, ap, sym, ◌∙◌, true, false, any,
  ◌==◌, ◌||◌, Bool-cases, inl, inr, arith, append-nil, append_assoc, append-cons, All, map-map,
}
use openscale.SqlEditor.Csv.{
  Cell, Host, csv_cell_value, quote, comma, cr, lf, is_special, double_quotes, escape_csv_field,
  csv_line, build_csv,
}
use openscale.SqlEditor.Csv.Reader.{read, read_csv, fresh, bare, quoted, closing}

-- A text at which a field ends: nothing, a comma, or a line break.
abbrev Ends : Text → Type 0
Ends [] = Unit
Ends (c ∷ cs) = (c == comma || c == cr) ≡ true

module _ (row : List Text) (table : List (List Text)) (rest : Text) where
  read-double_quotes :
      (f field : Text)
      → read quoted field row table (double_quotes f ++ quote ∷ rest)
        ≡ read closing (field ++ f) row table rest
  unfolding read double_quotes
  read-double_quotes [] field = rw append-nil
  read-double_quotes (c ∷ cs) field =
      ground (arith, read-double_quotes cs (field ++ c ∷ []), append-cons field c cs)

  read-bare :
      (f field : Text)
      → any is_special f ≡ false
      → read bare field row table (f ++ rest) ≡ read bare (field ++ f) row table rest
  unfolding read
  read-bare [] field h = rw append-nil
  read-bare (c ∷ cs) field h =
      ground (arith, read-bare cs (field ++ c ∷ []), append-cons field c cs)

-- At the end of a field the three modes outside quotes agree.
read-closing_of_bare :
    (row : List Text) (table : List (List Text)) (rest f : Text)
    → Ends rest
    → read bare f row table rest ≡ read closing f row table rest
unfolding read
read-closing_of_bare row table [] f h = refl
read-closing_of_bare row table (c ∷ cs) f h = ground arith

read-closing_of_fresh :
    (row : List Text) (table : List (List Text)) (rest : Text)
    → Ends rest
    → read fresh [] row table rest ≡ read closing [] row table rest
unfolding read
read-closing_of_fresh row table [] h = refl
read-closing_of_fresh row table (c ∷ cs) h = ground arith

read-plain_field :
    (row : List Text) (table : List (List Text)) (rest f : Text)
    → any is_special f ≡ false
    → Ends rest
    → read fresh [] row table (f ++ rest) ≡ read closing f row table rest
unfolding read
read-plain_field row table rest [] plain h = read-closing_of_fresh row table rest h
read-plain_field row table rest (c ∷ cs) plain h =
    ground
      (arith, read-bare row table rest cs (c ∷ []), read-closing_of_bare row table rest (c ∷ cs) h)

-- One field: whatever it holds, it is read back whole.
read-escape_csv_field :
    (row : List Text) (table : List (List Text)) (rest f : Text)
    → Ends rest
    → read fresh [] row table (escape_csv_field f ++ rest) ≡ read closing f row table rest
unfolding escape_csv_field read
read-escape_csv_field row table rest f h = elim (Bool-cases (any is_special f)) [
  | inl special ↦ rw special (
      ap (λ t. read fresh [] row table (quote ∷ t))
        (append_assoc (double_quotes f) (quote ∷ []) rest)
      ∙ read-double_quotes row table rest f [])
  | inr plain ↦ rw plain (read-plain_field row table rest f plain h)
]

module _ (table : List (List Text)) (rest : Text) (ends : Ends rest)
    (finish : List Text → Option (List (List Text)))
    (finishes : (f : Text) (row : List Text)
      → read closing f row table rest ≡ finish (row ++ f ∷ [])) where
  -- One line, up to the line break or the end.
  read-csv_line :
      (f : Text) (fs : List Text) (row : List Text)
      → read fresh [] row table (csv_line (f ∷ fs) ++ rest) ≡ finish (row ++ f ∷ fs)
  unfolding read
  read-csv_line f [] row = read-escape_csv_field row table rest f ends ∙ finishes f row
  read-csv_line f (g ∷ gs) row =
      ap (read fresh [] row table)
        (append_assoc (escape_csv_field f) (comma ∷ csv_line (g ∷ gs)) rest)
      ∙ (read-escape_csv_field row table (comma ∷ csv_line (g ∷ gs) ++ rest) f refl
          ∙ (read-csv_line g gs (row ++ f ∷ []) ∙ ap finish (sym (append-cons row f (g ∷ gs)))))

abbrev pub IsFilled {ℓ} : {A : Type ℓ} → List A → Type 0
IsFilled [] = ⊥
IsFilled (x ∷ xs) = Unit

read-lines :
    (table : List (List Text)) (line : List Text) (lines : List (List Text))
    → IsFilled line
    → All IsFilled lines
    → read fresh [] [] table (join (cr ∷ lf ∷ []) (map csv_line (line ∷ lines)))
      ≡ some (table ++ line ∷ lines)
unfolding read
read-lines table [] lines h hs = elim h [ ]
read-lines table (f ∷ fs) [] h hs =
    ap (read fresh [] [] table) (sym (append-nil (csv_line (f ∷ fs))))
    ∙ read-csv_line table [] tt (λ row. some (table ++ row ∷ [])) (λ g row. refl) f fs []
read-lines table (f ∷ fs) (line ∷ lines) h hs =
    read-csv_line table (cr ∷ lf ∷ join (cr ∷ lf ∷ []) (map csv_line (line ∷ lines))) refl
      (λ row.
        read fresh [] [] (table ++ row ∷ []) (join (cr ∷ lf ∷ []) (map csv_line (line ∷ lines))))
      (λ g row. refl) f fs []
    ∙ (read-lines (table ++ (f ∷ fs) ∷ []) line lines hs.0 hs.1
        ∙ ap some (sym (append-cons table (f ∷ fs) (line ∷ lines))))

module _ {Number Object : Type 0} (host : Host Number Object) where
  IsFilled-map :
      (rows : List (List (Cell Number Object)))
      → All IsFilled rows
      → All IsFilled (map (map (csv_cell_value host)) rows)
  IsFilled-map [] h = tt
  IsFilled-map ([] ∷ rows) h = elim h.0 [ ]
  IsFilled-map ((c ∷ cs) ∷ rows) h = (tt, IsFilled-map rows h.1)

-- Reading an export back gives the column names, then each row's raw cell texts, in order: no
-- comma, quote or line break in a name or a cell is lost or splits a field. The result has a
-- column and no row is empty.
pub read_csv-build_csv :
    {Number Object : Type 0} (host : Host Number Object) (columns : List Text)
    (rows : List (List (Cell Number Object)))
    → IsFilled columns
    → All IsFilled rows
    → read_csv (build_csv host columns rows) ≡ some (columns ∷ map (map (csv_cell_value host)) rows)
unfolding build_csv read_csv
read_csv-build_csv host columns rows h hs =
    ap (λ lines. read fresh [] [] [] (join (cr ∷ lf ∷ []) (csv_line columns ∷ lines)))
      (sym (map-map csv_line (map (csv_cell_value host)) rows))
    ∙ read-lines [] columns (map (map (csv_cell_value host)) rows) h (IsFilled-map host rows hs)
