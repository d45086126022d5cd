-- ===== src/Search/Dropdown/Laws.antt =====
-- The rows of the list against the results that the keys walk.
use openscale.Base.{
  ◌≢◌, ℕ, zero, suc, ◌==◌, List, [], ◌∷◌, ◌++◌, map, Option, none, some, Bool, true, false, All,
  ◌≡◌, ◌⊎◌, inl, inr, refl, ap, sym, ◌∙◌, arith, length, get_elem?, append-nil, Bool-cases,
}
use openscale.Search.Results.{
  SearchCategory, screen, job, table, run, SearchResultItem, SearchResults, flat_results,
}
use openscale.Search.Bar.{BarState, is_open, enter, handle_key_down, select}
use openscale.Search.Dropdown.{
  DropdownRow, Section, section, sections_of, index_of, row_of, click_row,
}

abbrev pub all_rows : List Section → List DropdownRow
all_rows [] = []
all_rows (s ∷ ss) = s.rows ++ all_rows ss

all_rows-section :
    (c : SearchCategory) (rows : List DropdownRow) (ss : List Section)
    → all_rows (section c rows ++ ss) ≡ rows ++ all_rows ss
all_rows-section c [] ss = refl
all_rows-section c (row ∷ rows) ss = refl

all_rows-last : (c : SearchCategory) (rows : List DropdownRow) → all_rows (section c rows) ≡ rows
all_rows-last c [] = refl
all_rows-last c (row ∷ rows) = append-nil (row ∷ rows)

map-append :
    (f : SearchResultItem → DropdownRow) (xs ys : List SearchResultItem)
    → map f xs ++ map f ys ≡ map f (xs ++ ys)
map-append f [] ys = refl
map-append f (x ∷ xs) ys = ap (◌∷◌ (f x)) (map-append f xs ys)

get_elem?-map :
    (f : SearchResultItem → DropdownRow) (xs : List SearchResultItem) (i : ℕ) (row : DropdownRow)
    → get_elem? (map f xs) i ≡ some row
    → (x : SearchResultItem) × (get_elem? xs i ≡ some x) × (f x ≡ row)
get_elem?-map f [] i row h = cc
get_elem?-map f (x ∷ xs) zero row h = (x, refl, ap (or_self (f x)) h)
  where
    or_self : DropdownRow → Option DropdownRow → DropdownRow
    or_self d none = d
    or_self d (some r) = r
get_elem?-map f (x ∷ xs) (suc i) row h = get_elem?-map f xs i row h

All-at :
    (p : SearchResultItem → Bool) (xs : List SearchResultItem) (i : ℕ) (x : SearchResultItem)
    → All (λ y. p y ≡ false) xs
    → get_elem? xs i ≡ some x
    → p x ≡ false
All-at p [] i x h e = cc
All-at p (y ∷ ys) zero x h e = cc (h.0, e)
All-at p (y ∷ ys) (suc i) x h e = All-at p ys i x h.1 e

not_empty :
    (xs : List SearchResultItem) (i : ℕ) (x : SearchResultItem)
    → get_elem? xs i ≡ some x
    → (length xs == 0) ≡ false
not_empty [] i x e = cc
not_empty (y ∷ ys) i x e = ground arith

module _ (same : SearchResultItem → SearchResultItem → Bool) where
  -- No two results are the same object.
  abbrev pub AreDistinct : List SearchResultItem → Type 0
  AreDistinct [] = Unit
  AreDistinct (x ∷ xs) = All (λ y. same x y ≡ false) xs × AreDistinct xs

  index_of-at :
      (xs : List SearchResultItem) (i : ℕ) (x : SearchResultItem)
      → ((y : SearchResultItem) → same y y ≡ true)
      → AreDistinct xs
      → get_elem? xs i ≡ some x
      → index_of same x xs ≡ some i
  unfolding index_of
  index_of-at [] i x r d e = cc
  index_of-at (y ∷ ys) zero x r d e = let self = r y in cc
  index_of-at (y ∷ ys) (suc i) x r d e =
      rw (All-at (same y) ys i x d.0 e, index_of-at ys i x r d.1 e) refl

  all_rows_lem :
      (h : ℕ) (r : SearchResults)
      → all_rows (sections_of same h r) ≡ map (row_of same (flat_results r) h) (flat_results r)
  unfolding sections_of flat_results
  all_rows_lem h r =
      let f = row_of same (flat_results r) h in
      all_rows-section screen (map f r.screens) _
      ∙ (ap (λ l. map f r.screens ++ l)
            (all_rows-section job (map f r.jobs) _
              ∙ (ap (λ l. map f r.jobs ++ l)
                    (all_rows-section table (map f r.tables) _
                      ∙ (ap (λ l. map f r.tables ++ l) (all_rows-last run _)
                          ∙ map-append f r.tables r.runs))
                  ∙ map-append f r.jobs (r.tables ++ r.runs)))
          ∙ map-append f r.screens (r.jobs ++ (r.tables ++ r.runs)))

  items_lem :
      (flat xs : List SearchResultItem) (h : ℕ)
      → map (λ row. row.item) (map (row_of same flat h) xs) ≡ xs
  unfolding row_of
  items_lem flat [] h = refl
  items_lem flat (x ∷ xs) h = ap (◌∷◌ x) (items_lem flat xs h)

  row_of_lem :
      (flat : List SearchResultItem) (h i : ℕ) (x : SearchResultItem)
      → index_of same x flat ≡ some i
      → row_of same flat h x ≡ record { item = x; index = some i; is_highlighted = i == h }
  unfolding row_of
  row_of_lem flat h i x e = rw e refl

  enter-selects :
      (flat : List SearchResultItem) (s : BarState) (i : ℕ) (x : SearchResultItem)
      → is_open s ≡ true
      → get_elem? flat i ≡ some x
      → i ≡ s.highlighted
      → handle_key_down flat enter s ≡ select (some x) s
  unfolding handle_key_down
  enter-selects flat s i x o e k =
      let here : get_elem? flat s.highlighted ≡ some x = ap (get_elem? flat) (sym k) ∙ e in
      rw (o, not_empty flat i x e, here) refl

  -- While the list is open and no two of its results are the same object, its rows, section after
  -- section, are the results in the order in which the arrow keys walk them; the row at place `i` has
  -- that index, and it is highlighted exactly if it is the one that the keys have come to, and then
  -- Enter does what a click on it does.
  pub sections_of-flat :
      (r : SearchResults) (s : BarState) (i : ℕ) (row : DropdownRow)
      → ((y : SearchResultItem) → same y y ≡ true)
      → AreDistinct (flat_results r)
      → is_open s ≡ true
      → get_elem? (all_rows (sections_of same s.highlighted r)) i ≡ some row
      → (map (λ row. row.item) (all_rows (sections_of same s.highlighted r)) ≡ flat_results r)
        × (row.index ≡ some i)
        × (((row.is_highlighted ≡ true)
              × (i ≡ s.highlighted)
              × (handle_key_down (flat_results r) enter s ≡ click_row row s))
            ⊎ ((row.is_highlighted ≡ false) × (i ≢ s.highlighted)))
  unfolding click_row
  sections_of-flat r s i row self distinct o at =
      let flat = flat_results r in
      let h = s.highlighted in
      let (x, e, k) =
        get_elem?-map (row_of same flat h) flat i row
          (ap (λ l. get_elem? l i) (sym (all_rows_lem h r)) ∙ at) in
      let shape = sym k ∙ row_of_lem flat h i x (index_of-at flat i x self distinct e) in
      (
        ap (map (λ row. row.item)) (all_rows_lem h r) ∙ items_lem flat flat h,
        ap (λ (w : DropdownRow). w.index) shape,
        elim (Bool-cases (i == h)) [
          | inl eq ↦
              let same_place : i ≡ h = ground arith in
              inl (
                ap (λ (w : DropdownRow). w.is_highlighted) shape ∙ eq,
                same_place,
                enter-selects flat s i x o e same_place
                    ∙ ap (λ (w : DropdownRow). select (some w.item) s) (sym shape),
              )
          | inr ne ↦ inr (ap (λ (w : DropdownRow). w.is_highlighted) shape ∙ ne, λ q. ground arith)
        ],
      )
