-- ===== src/Search/Results/Laws.antt =====
-- What the results hold of each catalog.
use openscale.Base.{
  ℕ, zero, suc, ◌≤◌, ◌<◌, Text, List, [], ◌∷◌, map, Option, some, Bool, true, false, ◌≡◌, ◌⊎◌, inl,
  inr, refl, ap, sym, ◌∙◌, arith, length, get_elem?, take, filter, Bool-cases, take_of_length_le,
  length-take,
}
use openscale.Pipelines.Runs.{JobRun, state_text}
use openscale.Search.Catalogs.{nav_entries, job_catalog}
use openscale.Search.Matching.{trim, is_empty}
use openscale.Search.Matching.Laws.{Matches, matches_query_iff}
use openscale.Search.Results.{
  SearchResultItem, SearchResults, CatalogTable, Locale, capped, or_empty, empty_results,
  use_global_search, screen_item, job_item, table_item, run_item,
}

-- The entries of a catalog that a category shows: matching ones only, at most five, and all that
-- match if there are fewer than five.
pub record IsCapped {ℓ} {A : Type ℓ} (P : A → Type 0) (item : A → SearchResultItem) (xs : List A)
    (shown : List SearchResultItem) : Type ℓ where
  pub at_most : length shown ≤ 5
  pub sound :
      (i : ℕ) (r : SearchResultItem)
      → get_elem? shown i ≡ some r
      → (j : ℕ) × (x : A) × (get_elem? xs j ≡ some x) × P x × (r ≡ item x)
  pub complete :
      (j : ℕ) (x : A)
      → length shown < 5
      → get_elem? xs j ≡ some x
      → P x
      → (i : ℕ) × (get_elem? shown i ≡ some (item x))

module _ {ℓ} {A : Type ℓ} where
  length-map : (item : A → SearchResultItem) (xs : List A) → length (map item xs) ≡ length xs
  length-map item [] = refl
  length-map item (x ∷ xs) = ap suc (length-map item xs)

  get_elem?-map-some :
      (item : A → SearchResultItem) (xs : List A) (i : ℕ) (r : SearchResultItem)
      → get_elem? (map item xs) i ≡ some r
      → (x : A) × (get_elem? xs i ≡ some x) × (r ≡ item x)
  get_elem?-map-some item [] i r h = cc
  get_elem?-map-some item (x ∷ xs) zero r h =
      let same : item x ≡ r = ground arith in (x, refl, sym same)
  get_elem?-map-some item (x ∷ xs) (suc i) r h = get_elem?-map-some item xs i r h

  get_elem?-map :
      (item : A → SearchResultItem) (xs : List A) (i : ℕ) (x : A)
      → get_elem? xs i ≡ some x
      → get_elem? (map item xs) i ≡ some (item x)
  get_elem?-map item [] i x h = cc
  get_elem?-map item (y ∷ ys) zero x h = let same : some y ≡ some x = h in cc
  get_elem?-map item (y ∷ ys) (suc i) x h = get_elem?-map item ys i x h

  get_elem?-take :
      (n : ℕ) (xs : List A) (i : ℕ) (x : A)
      → get_elem? (take n xs) i ≡ some x
      → get_elem? xs i ≡ some x
  get_elem?-take zero xs i x h = cc
  get_elem?-take (suc n) [] i x h = cc
  get_elem?-take (suc n) (y ∷ ys) zero x h = h
  get_elem?-take (suc n) (y ∷ ys) (suc i) x h = get_elem?-take n ys i x h

  head_or_tail :
      (y : A) (ys : List A) (i : ℕ) (x : A)
      → get_elem? (y ∷ ys) i ≡ some x
      → (y ≡ x) ⊎ ((k : ℕ) × (get_elem? ys k ≡ some x))
  head_or_tail y ys zero x h = inl (ground arith)
  head_or_tail y ys (suc i) x h = inr (i, h)

  filter_kept :
      (p : A → Bool) (x : A) (xs : List A) → p x ≡ true → filter p (x ∷ xs) ≡ x ∷ filter p xs
  filter_kept p x xs h = rw (h, filter) refl

  filter_dropped :
      (p : A → Bool) (x : A) (xs : List A) → p x ≡ false → filter p (x ∷ xs) ≡ filter p xs
  filter_dropped p x xs h = rw (h, filter) refl

  get_elem?-filter :
      (p : A → Bool) (xs : List A) (i : ℕ) (x : A)
      → get_elem? (filter p xs) i ≡ some x
      → (j : ℕ) × (get_elem? xs j ≡ some x) × (p x ≡ true)
  get_elem?-filter p [] i x h = cc
  get_elem?-filter p (y ∷ ys) i x h = elim (Bool-cases (p y)) [
    | inl kept ↦
        elim (head_or_tail y (filter p ys) i x
          (ap (λ l. get_elem? l i) (sym (filter_kept p y ys kept)) ∙ h)) [
            | inl same ↦ (zero, ap some same, rw (← same) kept)
            | inr (k, at) ↦
                let (j, there, good) = get_elem?-filter p ys k x at in (suc j, there, good)
          ]
    | inr dropped ↦
        let (j, there, good) =
          get_elem?-filter p ys i x
            (ap (λ l. get_elem? l i) (sym (filter_dropped p y ys dropped)) ∙ h) in
        (suc j, there, good)
  ]

  filter-get_elem? :
      (p : A → Bool) (xs : List A) (j : ℕ) (x : A)
      → get_elem? xs j ≡ some x
      → p x ≡ true
      → (i : ℕ) × (get_elem? (filter p xs) i ≡ some x)
  filter-get_elem? p [] j x h good = cc
  filter-get_elem? p (y ∷ ys) zero x h good =
      let same : y ≡ x = ground arith in
      (zero, ap (λ l. get_elem? l zero) (filter_kept p y ys (rw same good)) ∙ ap some same)
  filter-get_elem? p (y ∷ ys) (suc j) x h good =
      let (i, at) = filter-get_elem? p ys j x h good in
      elim (Bool-cases (p y)) [
        | inl kept ↦ (suc i, ap (λ l. get_elem? l (suc i)) (filter_kept p y ys kept) ∙ at)
        | inr dropped ↦ (i, ap (λ l. get_elem? l i) (filter_dropped p y ys dropped) ∙ at)
      ]

  capped-IsCapped :
      (P : A → Type 0) (p : A → Bool) (item : A → SearchResultItem) (xs : List A)
      → ((x : A) → p x ≡ true → P x)
      → ((x : A) → P x → p x ≡ true)
      → IsCapped P item xs (capped p item xs)
  capped-IsCapped P p item xs to from =
      let found = filter p xs in
      let cut = length-map item (take 5 found) in
      let size = length-take 5 found in
      record {
        at_most = omega (arith, cut, size);
        sound = λ i r h.
            let (x, at, same) = get_elem?-map-some item (take 5 found) i r h in
            let (j, there, good) = get_elem?-filter p xs i x (get_elem?-take 5 found i x at) in
            (j, x, there, to x good, same);
        complete = λ j x few there good.
            let (i, at) = filter-get_elem? p xs j x there (from x good) in
            let all_of = take_of_length_le 5 found (omega (arith, cut, size)) in
            (i, get_elem?-map item (take 5 found) i x (ap (λ l. get_elem? l i) all_of ∙ at));
      }

-- What the results of an active search hold, category by category.
pub record IsSearch (locale : Locale) (query : Text) (catalog : List CatalogTable)
    (history : List JobRun) (r : SearchResults) : Type 0 where
  pub screens :
      IsCapped
        (λ e. Matches locale.to_lower query (some e.label ∷ some e.subtitle ∷ []))
        screen_item
        nav_entries
        r.screens
  pub jobs :
      IsCapped
        (λ j.
          Matches locale.to_lower query
            (some j.label ∷ some j.job_type ∷ some j.stage ∷ some j.description ∷ []))
        job_item
        job_catalog
        r.jobs
  pub tables :
      IsCapped
        (λ t. Matches locale.to_lower query (some t.schema ∷ some t.table_name ∷ []))
        table_item
        catalog
        r.tables
  pub runs :
      IsCapped
        (λ j.
          Matches locale.to_lower query
            (some j.job_type ∷ some j.id ∷ some (state_text j.state) ∷ []))
        (run_item locale)
        history
        r.runs

-- While the search bar has no focus or the query is blank, nothing is found. Otherwise each
-- category shows at most five entries, in each of which a field holds the query, and every such
-- entry if there are fewer than five.
pub use_global_search-IsSearch :
    (locale : Locale) (query : Text) (enabled : Bool) (catalog : Option (List CatalogTable))
    (history : Option (List JobRun))
    → let r = use_global_search locale query enabled catalog history in
      (((enabled ≡ false) ⊎ (trim query ≡ [])) × (r ≡ empty_results))
      ⊎ IsSearch locale (trim query) (or_empty catalog) (or_empty history) r
unfolding use_global_search
use_global_search-IsSearch locale query false catalog history = inl (inl refl, refl)
use_global_search-IsSearch locale query true catalog history =
    elim (Bool-cases (is_empty (trim query))) [
      | inl blank ↦ inl (inr (blank-nil (trim query) blank), rw blank refl)
      | inr given ↦ rw given (
          inr (record {
            screens =
                capped-IsCapped _ _ screen_item nav_entries (λ x. (matches_query_iff _ _ _).0)
                  (λ x. (matches_query_iff _ _ _).1);
            jobs =
                capped-IsCapped _ _ job_item job_catalog (λ x. (matches_query_iff _ _ _).0)
                  (λ x. (matches_query_iff _ _ _).1);
            tables =
                capped-IsCapped _ _ table_item (or_empty catalog) (λ x. (matches_query_iff _ _ _).0)
                  (λ x. (matches_query_iff _ _ _).1);
            runs =
                capped-IsCapped _ _ (run_item locale) (or_empty history)
                  (λ x. (matches_query_iff _ _ _).0) (λ x. (matches_query_iff _ _ _).1);
          }))
    ]
  where
    blank-nil : (t : Text) → is_empty t ≡ true → t ≡ []
    blank-nil [] h = refl
    blank-nil (c ∷ cs) h = cc
