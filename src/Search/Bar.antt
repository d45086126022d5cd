-- ===== src/Search/Bar.antt =====
-- frontend/src/shared/layout/SearchBar.tsx: the query, the focus and the highlighted row, and what
-- the keys and the pointer do to them. `flat` is the list of results at the render in question.
mod Laws
mod Tests
use openscale.Base.{
  ℕ, ◌+◌, ◌-◌, ◌%◌, Text, List, [], ◌∷◌, Option, none, some, Bool, true, false, ◌&&◌, ◌||◌, not,
  ltb, ◌==◌, if◌then◌else◌, text_eq, length, get_elem?,
}
use openscale.Search.Matching.{trim, is_empty}
use openscale.Search.Results.{SearchResultItem, NavState}

pub record BarState : Type 0 where
  pub query : Text
  pub focused : Bool
  pub highlighted : ℕ

abbrev pub closed_bar : BarState
closed_bar = record { query = []; focused = false; highlighted = 0 }

pub data Key : Type 0 where
  escape arrow_down arrow_up enter other : Key

-- A handler's end: the new state, also with a navigation, or an exception.
pub data Result : Type 0 where
  stays : BarState → Result
  navigates : Text → Option NavState → BarState → Result
  throws : Result

-- `setQuery`, with the effect on `[query]` that resets the highlight.
unfoldable pub set_query : Text → BarState → BarState
set_query query s = if text_eq s.query query then s else record s { query = query; highlighted = 0 }

abbrev pub is_open : BarState → Bool
is_open s = s.focused && not (is_empty (trim s.query))

-- `select(item)`; of `undefined` the read of `path` throws before anything is set.
unfoldable pub select : Option SearchResultItem → BarState → Result
select none s = throws
select (some item) s =
    navigates item.path item.nav_state (record (set_query [] s) { focused = false })

-- `(i + 1) % n` and `(i - 1 + n) % n`, for `n` that is not 0.
abbrev pub next_row : ℕ → ℕ → ℕ
next_row n i = (i + 1) % n

abbrev pub previous_row : ℕ → ℕ → ℕ
previous_row n i = (i + n - 1) % n

unfoldable pub handle_key_down : List SearchResultItem → Key → BarState → Result
handle_key_down flat escape s = stays (record (set_query [] s) { focused = false })
handle_key_down flat arrow_down s =
    if not (is_open s) || length flat == 0
    then stays s
    else stays (record s { highlighted = next_row (length flat) s.highlighted })
handle_key_down flat arrow_up s =
    if not (is_open s) || length flat == 0
    then stays s
    else stays (record s { highlighted = previous_row (length flat) s.highlighted })
handle_key_down flat enter s =
    if not (is_open s) || length flat == 0 then stays s else select (get_elem? flat s.highlighted) s
handle_key_down flat other s = stays s

-- `onFocus`, `onBlur`, and the pointer over a row.
abbrev pub on_focus : BarState → BarState
on_focus s = record s { focused = true }

abbrev pub on_blur : BarState → BarState
on_blur s = record s { focused = false }

abbrev pub on_mouse_enter : ℕ → BarState → BarState
on_mouse_enter index s = record s { highlighted = index }

-- The button that clears the query, which focuses the input.
unfoldable pub clear_search : BarState → BarState
unfolding set_query
clear_search s = on_focus (set_query [] s)

-- Arrow keys in a row over the same results; `true` is down.
unfoldable pub press_arrows : List SearchResultItem → List Bool → BarState → Result
press_arrows flat [] s = stays s
press_arrows flat (down ∷ downs) s =
    elim (handle_key_down flat (if down then arrow_down else arrow_up) s) [
      | stays t ↦ press_arrows flat downs t
      | navigates path nav_state t ↦ navigates path nav_state t
      | throws ↦ throws
    ]
