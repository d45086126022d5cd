-- ===== src/Search/Dropdown/Tests.antt =====
-- One screen and one run.
use openscale.Base.{
  text_eq_refl, Bool, text_eq, ◌≢◌, ◌⊎◌, codes, [], ◌∷◌, none, some, true, false, map, ◌≡◌, refl,
}
use openscale.Search.Matching.{trim, trim_start}
use openscale.Search.Results.{screen, run, SearchResultItem, SearchResults, flat_results}
use openscale.Search.Bar.{BarState, enter, handle_key_down}
use openscale.Search.Dropdown.{
  closed, no_matches, dropdown, sections_of, DropdownRow, click_row, category_label,
}
use openscale.Search.Dropdown.Laws.{all_rows, sections_of-flat}

abbrev home_item : SearchResultItem
home_item = record {
  id = codes "screen:/";
  category = screen;
  title = codes "Home";
  subtitle = none;
  path = codes "/";
  nav_state = none;
}

abbrev gold_item : SearchResultItem
gold_item = record {
  id = codes "run:r1";
  category = run;
  title = codes "gold";
  subtitle = some (codes "8:00");
  path = codes "/pipelines";
  nav_state = none;
}

abbrev two : SearchResults
two = record { screens = home_item ∷ []; jobs = []; tables = []; runs = gold_item ∷ [] }

-- The items of one search have different texts for their ids.
abbrev by_id : SearchResultItem → SearchResultItem → Bool
by_id x y = text_eq x.id y.id

abbrev asked : BarState
asked = record { query = codes "o"; focused = true; highlighted = 1 }

two_sections :
    map (λ s. s.label) (sections_of by_id 1 two) ≡ codes "Screens" ∷ codes "Recent runs" ∷ []
unfolding sections_of category_label
two_sections = refl

nothing_found :
    dropdown by_id asked (record { screens = []; jobs = []; tables = []; runs = [] })
    ≡ no_matches (codes "No matches for “o”.")
unfolding dropdown trim trim_start
nothing_found = refl

unfocused : dropdown by_id (record asked { focused = false }) two ≡ closed
unfolding dropdown
unfocused = refl

abbrev gold_row : DropdownRow
gold_row = record { item = gold_item; index = some 1; is_highlighted = true }

sections_of-flat_example :
    (map (λ row. row.item) (all_rows (sections_of by_id 1 two)) ≡ flat_results two)
    × (gold_row.index ≡ some 1)
    × (((gold_row.is_highlighted ≡ true)
          × (1 ≡ asked.highlighted)
          × (handle_key_down (flat_results two) enter asked ≡ click_row gold_row asked))
        ⊎ ((gold_row.is_highlighted ≡ false) × (1 ≢ asked.highlighted)))
unfolding sections_of flat_results trim trim_start
sections_of-flat_example =
    sections_of-flat by_id two asked 1 gold_row (λ y. text_eq_refl y.id) ((refl, tt), (tt, tt)) refl
      refl
