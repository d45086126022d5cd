-- ===== src/Search/Bar/Laws.antt =====
-- Walking the results with the arrow keys, and what `Enter` selects.
use openscale.Base.{
  ℕ, zero, suc, ◌+◌, ◌-◌, ◌%◌, ◌≤◌, ◌<◌, List, [], ◌∷◌, none, some, Bool, true, false, ◌==◌,
  if◌then◌else◌, ◌≡◌, ◌≢◌, text_eq, text_eq_iff, ◌⊎◌, inl, inr, refl, ap, sym, ◌∙◌, arith, length,
  get_elem?, Bool-cases, Option-cases,
}
use native.Mathlib.Nat.{mod-lt, mod-eq_of_lt, mod-add-mod}
use openscale.Search.Matching.{trim, trim_start}
use openscale.Search.Results.{SearchResultItem}
use openscale.Search.Bar.{
  BarState, arrow_down, arrow_up, enter, Result, stays, navigates, throws, set_query, is_open,
  select, closed_bar, handle_key_down, press_arrows,
}

-- Where arrow keys lead from a row, counted without a wrap: each way up is `n - 1` ways down.
abbrev pub steps_down : ℕ → List Bool → ℕ
steps_down n [] = 0
steps_down n (down ∷ downs) = (if down then 1 else n - 1) + steps_down n downs

abbrev at_row : BarState → ℕ → Result
at_row s k = stays (record s { highlighted = k })

arrow-step :
    (flat : List SearchResultItem) (down : Bool) (s : BarState)
    → is_open s ≡ true
    → s.highlighted < length flat
    → handle_key_down flat (if down then arrow_down else arrow_up) s
      ≡ at_row s ((s.highlighted + (if down then 1 else length flat - 1)) % length flat)
unfolding handle_key_down
arrow-step flat true s h k =
    let some_left : (length flat == 0) ≡ false = ground arith in rw (h, some_left) refl
arrow-step flat false s h k =
    let some_left : (length flat == 0) ≡ false = ground arith in
    rw (h, some_left)
      (ap (λ j. at_row s (j % length flat)) {x = s.highlighted + length flat - 1}
        {y = s.highlighted + (length flat - 1)} (omega arith))

-- While the bar is open and the results stay, the arrow keys walk round them: the highlighted row
-- moves one down or up for each key, from the last row to the first and back, and nothing else
-- changes.
pub press_arrows_lem :
    (flat : List SearchResultItem) (downs : List Bool) (s : BarState)
    → is_open s ≡ true
    → s.highlighted < length flat
    → press_arrows flat downs s
      ≡ stays (record s {
        highlighted = (s.highlighted + steps_down (length flat) downs) % length flat;
      })
unfolding press_arrows
press_arrows_lem flat [] s h k =
    ap (at_row s) {x = s.highlighted} {y = (s.highlighted + 0) % length flat}
      (sym (mod-eq_of_lt k) ∙ ap (λ j. j % length flat) (omega arith))
press_arrows_lem flat (down ∷ downs) s h k =
    let n = length flat in
    let d : ℕ = if down then 1 else n - 1 in
    let row = (s.highlighted + d) % n in
    let walked =
      press_arrows_lem flat downs (record s { highlighted = row }) h
        (mod-lt (s.highlighted + d) (omega arith)) in
    rw (arrow-step flat down s h k, press_arrows)
      (walked
        ∙ ap (at_row s) (
            mod-add-mod (s.highlighted + d) n (steps_down n downs)
            ∙ ap (λ j. j % n) {x = s.highlighted + d + steps_down n downs}
                {y = s.highlighted + (d + steps_down n downs)} (omega arith)))

trim-nil : trim [] ≡ []
unfolding trim trim_start
trim-nil = refl

queried : (s : BarState) → is_open s ≡ true → text_eq s.query [] ≡ false
queried s h = elim (Bool-cases (text_eq s.query [])) [
  | inl blank ↦
      let none_left : trim s.query ≡ [] = ap trim ((text_eq_iff s.query []).0 blank) ∙ trim-nil in
      absurd (ground arith)
  | inr given ↦ given
]

get_elem?-none : (flat : List SearchResultItem) (k : ℕ) → get_elem? flat k ≡ none → length flat ≤ k
get_elem?-none [] k h = omega arith
get_elem?-none (x ∷ xs) zero h = cc
get_elem?-none (x ∷ xs) (suc k) h = omega (arith, get_elem?-none xs k h)

not_nil-length : (flat : List SearchResultItem) → flat ≢ [] → (length flat == 0) ≡ false
not_nil-length [] h = absurd (h refl)
not_nil-length (x ∷ xs) h = ground arith

-- `Enter` on an open bar with results navigates to the highlighted one, if the highlight is within
-- the results, and closes the bar; outside of them it throws.
pub handle_key_down-enter :
    (flat : List SearchResultItem) (s : BarState)
    → is_open s ≡ true
    → flat ≢ []
    → ((item : SearchResultItem) × (get_elem? flat s.highlighted ≡ some item)
        × (handle_key_down flat enter s ≡ navigates item.path item.nav_state closed_bar))
      ⊎ ((length flat ≤ s.highlighted) × (handle_key_down flat enter s ≡ throws))
unfolding handle_key_down select set_query
handle_key_down-enter flat s h k =
    let some_left = not_nil-length flat k in
    elim (Option-cases (get_elem? flat s.highlighted)) [
      | inl outside ↦
          inr (get_elem?-none flat s.highlighted outside, rw (h, some_left, outside) refl)
      | inr (item, at) ↦ inl (item, at, rw (h, some_left, at, queried s h) refl)
    ]
