-- ===== src/DataCatalog/Preview/Tests.antt =====
-- A mixed-case table, and a table with a quote in its name, whose reference names nothing.
use openscale.Base.{codes, none, ◌≡◌, refl}
use openscale.Search.Results.{quoted_table_ref}
use openscale.DataCatalog.Preview.Laws.{read_name, read_second, read_ref}

inner_quote_breaks : read_ref (quoted_table_ref (codes "public") (codes "a\"b")) ≡ none
unfolding read_ref read_name read_second quoted_table_ref
inner_quote_breaks = refl
