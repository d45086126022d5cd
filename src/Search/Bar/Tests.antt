-- ===== src/Search/Bar/Tests.antt =====
-- Three results, of which the third stays highlighted when two of them go away.
use openscale.Base.{
  ◌+◌, ◌%◌, ◌≤◌, Text, codes, List, [], ◌∷◌, none, some, true, false, ◌≡◌, ◌⊎◌, refl, arith, length,
  get_elem?,
}
use openscale.Search.Matching.{trim, trim_start}
use openscale.Search.Results.{SearchResultItem, screen}
use openscale.Search.Bar.{
  BarState, enter, stays, navigates, throws, handle_key_down, press_arrows, select, closed_bar,
}
use openscale.Search.Bar.Laws.{press_arrows_lem, steps_down, handle_key_down-enter}

abbrev item : Text → SearchResultItem
item path = record {
  id = path;
  category = screen;
  title = path;
  subtitle = none;
  path = path;
  nav_state = none;
}

abbrev home : SearchResultItem
home = item (codes "/")

abbrev three : List SearchResultItem
three = home ∷ item (codes "/pipelines") ∷ item (codes "/streaming") ∷ []

abbrev asked : BarState
asked = record { query = codes "s"; focused = true; highlighted = 0 }

abbrev walked : BarState
walked = record asked { highlighted = 2 }

up_from_the_first : press_arrows three (false ∷ []) asked ≡ stays walked
unfolding press_arrows handle_key_down trim trim_start
up_from_the_first = refl

stale_highlight_throws : handle_key_down (home ∷ []) enter walked ≡ throws
unfolding handle_key_down trim trim_start select
stale_highlight_throws = refl

press_arrows_example :
    press_arrows three (true ∷ true ∷ true ∷ false ∷ []) asked
    ≡ stays
        (record asked { highlighted = (0 + steps_down 3 (true ∷ true ∷ true ∷ false ∷ [])) % 3 })
unfolding trim trim_start
press_arrows_example =
    press_arrows_lem three (true ∷ true ∷ true ∷ false ∷ []) asked refl (omega arith)

handle_key_down-enter_example :
    ((i : SearchResultItem) × (get_elem? three 2 ≡ some i)
      × (handle_key_down three enter walked ≡ navigates i.path i.nav_state closed_bar))
    ⊎ ((length three ≤ 2) × (handle_key_down three enter walked ≡ throws))
unfolding trim trim_start
handle_key_down-enter_example = handle_key_down-enter three walked refl (λ e. cc)
