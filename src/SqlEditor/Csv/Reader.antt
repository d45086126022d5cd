-- ===== src/SqlEditor/Csv/Reader.antt =====
-- A strict reader of RFC 4180 text, the meaning that the export is held against. A quote may stand
-- only around a field or doubled inside one, and a record ends by CR LF or at the end of the text.
use openscale.Base.{Text, List, [], ◌∷◌, ◌++◌, Option, none, some, if◌then◌else◌, ◌==◌}
use openscale.SqlEditor.Csv.{quote, comma, cr, lf}

pub data Mode : Type 0 where
  fresh bare quoted closing ending : Mode

unfoldable pub read : Mode → Text → List Text → List (List Text) → Text → Option (List (List Text))
read fresh field row table [] = some (table ++ (row ++ field ∷ []) ∷ [])
read bare field row table [] = some (table ++ (row ++ field ∷ []) ∷ [])
read closing field row table [] = some (table ++ (row ++ field ∷ []) ∷ [])
read quoted field row table [] = none
read ending field row table [] = none
read fresh field row table (c ∷ cs) =
    let next_field = read fresh [] (row ++ field ∷ []) table cs in
    let next_row = read ending [] [] (table ++ (row ++ field ∷ []) ∷ []) cs in
    let opened = read quoted field row table cs in
    let grown = read bare (field ++ c ∷ []) row table cs in
    if c == quote
    then opened
    else if c == comma
    then next_field
    else if c == cr
    then next_row
    else if c == lf
    then none
    else grown
read bare field row table (c ∷ cs) =
    let next_field = read fresh [] (row ++ field ∷ []) table cs in
    let next_row = read ending [] [] (table ++ (row ++ field ∷ []) ∷ []) cs in
    let grown = read bare (field ++ c ∷ []) row table cs in
    if c == quote
    then none
    else if c == comma
    then next_field
    else if c == cr
    then next_row
    else if c == lf
    then none
    else grown
read quoted field row table (c ∷ cs) =
    let closed = read closing field row table cs in
    let grown = read quoted (field ++ c ∷ []) row table cs in if c == quote then closed else grown
read closing field row table (c ∷ cs) =
    let next_field = read fresh [] (row ++ field ∷ []) table cs in
    let next_row = read ending [] [] (table ++ (row ++ field ∷ []) ∷ []) cs in
    let doubled = read quoted (field ++ c ∷ []) row table cs in
    if c == quote
    then doubled
    else if c == comma
    then next_field
    else if c == cr
    then next_row
    else none
read ending field row table (c ∷ cs) =
    let started = read fresh field row table cs in if c == lf then started else none

unfoldable pub read_csv : Text → Option (List (List Text))
unfolding read
read_csv text = read fresh [] [] [] text
