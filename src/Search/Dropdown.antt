-- ===== src/Search/Dropdown.antt =====
-- frontend/src/shared/layout/SearchBar.tsx: what stands in the field and in the list below it, and what
-- the pointer does there; `CATEGORY_LABEL` of frontend/src/shared/search/rules.ts.
mod Laws
mod Tests
use openscale.Base.{
  ℕ, suc, ◌+◌, ◌==◌, Text, codes, List, [], ◌∷◌, ◌++◌, Option, none, some, Bool, true, false, not,
  ◌&&◌, ◌||◌, length, map, if◌then◌else◌,
}
use openscale.Search.Matching.{trim, is_empty}
use openscale.Search.Results.{
  SearchCategory, screen, job, table, run, SearchResultItem, SearchResults, flat_results,
}
use openscale.Search.Bar.{BarState, Result, is_open, set_query, select}

unfoldable pub category_label : SearchCategory → Text
category_label screen = codes "Screens"
category_label job = codes "Jobs"
category_label table = codes "Tables"
category_label run = codes "Recent runs"

-- A row: its item, its place among all results (`none` is -1), and whether it is highlighted.
pub record DropdownRow : Type 0 where
  pub item : SearchResultItem
  pub index : Option ℕ
  pub is_highlighted : Bool

pub record Section : Type 0 where
  pub label : Text
  pub rows : List DropdownRow

abbrev pub section : SearchCategory → List DropdownRow → List Section
section category [] = []
section category (row ∷ rows) = record { label = category_label category; rows = row ∷ rows } ∷ []

abbrev pub is_at : ℕ → Option ℕ → Bool
is_at highlighted none = false
is_at highlighted (some i) = i == highlighted

abbrev pub one_further : Option ℕ → Option ℕ
one_further none = none
one_further (some i) = some (suc i)

-- `same` is `===` of two items, which are objects.
module _ (same : SearchResultItem → SearchResultItem → Bool) where
  -- `items.indexOf(item)`
  unfoldable pub index_of : SearchResultItem → List SearchResultItem → Option ℕ
  index_of item [] = none
  index_of item (x ∷ xs) =
      let rest = one_further (index_of item xs) in if same x item then some 0 else rest

  unfoldable pub row_of : List SearchResultItem → ℕ → SearchResultItem → DropdownRow
  unfolding index_of
  row_of flat highlighted item =
      let index = index_of item flat in
      record { item = item; index = index; is_highlighted = is_at highlighted index }

  -- The sections of the categories that have results, in order.
  unfoldable pub sections_of : ℕ → SearchResults → List Section
  unfolding row_of flat_results
  sections_of highlighted r =
      let row = row_of (flat_results r) highlighted in
      section screen (map row r.screens)
      ++ (section job (map row r.jobs)
          ++ (section table (map row r.tables) ++ section run (map row r.runs)))

-- The list: closed, a note, or the sections.
pub data Dropdown : Type 0 where
  closed : Dropdown
  no_matches : Text → Dropdown
  sections : List Section → Dropdown

-- `total` is the number of all results.
unfoldable pub dropdown :
    (SearchResultItem → SearchResultItem → Bool) → BarState → SearchResults → Dropdown
unfolding sections_of
dropdown same s r =
    let total = length r.screens + length r.jobs + length r.tables + length r.runs in
    if not (is_open s)
    then closed
    else if total == 0
    then no_matches (codes "No matches for “" ++ (trim s.query ++ codes "”."))
    else sections (sections_of same s.highlighted r)

-- Whether the field is wide, shows the hint of its hotkey, and shows the button that clears it.
pub record FieldView : Type 0 where
  pub is_wide : Bool
  pub shows_hotkey : Bool
  pub shows_clear : Bool

unfoldable pub field_view : BarState → FieldView
field_view s = record {
  is_wide = s.focused || not (is_empty s.query);
  shows_hotkey = not s.focused && is_empty s.query;
  shows_clear = not (is_empty s.query);
}

abbrev pub set_highlighted : Option ℕ → BarState → BarState
set_highlighted none s = s
set_highlighted (some i) s = record s { highlighted = i }

-- The pointer over a row, which is always found in the list, so that its index is not -1; a click on
-- it, and a click on the button that clears the field.
unfoldable pub hover_row : DropdownRow → BarState → BarState
hover_row row s = set_highlighted row.index s

unfoldable pub click_row : DropdownRow → BarState → Result
unfolding select
click_row row s = select (some row.item) s

unfoldable pub click_clear : BarState → BarState
unfolding set_query
click_clear s = record (set_query [] s) { focused = true }
