-- ===== src/Pipelines/RunList/Laws.antt =====
-- The pages cover the history, and what a trigger changes of them.
use openscale.Base.{
  Bool, map, slice, if◌then◌else◌, take-take, ℕ, zero, suc, ◌+◌, ◌*◌, ◌≤◌, ◌<◌, List, [], ◌∷◌, ◌++◌,
  Option, none, some, true, false, ltb, ◌≡◌, ◌⊎◌, inl, inr, refl, ap, ap₂, sym, ◌∙◌, arith, length,
  take, drop, take-drop, take-nil, length-take, length-slice, ltb→lt, get_elem?, take_of_length_le,
  Bool-cases,
}
use openscale.Pipelines.Runs.{JobRun, JobState, is_in_flight, ApiJobRun, map_api_job_run}
use openscale.Pipelines.RunList.{
  Select, IsOrdered, RunsPage, fetch_runs, fetch_page, cancel_all_runs, QueryCache, page_key,
  on_trigger_success, on_trigger_settled,
}

-- The runs of the first pages, one page after another.
abbrev pub pages_before : Select → ℕ → List JobRun
pages_before select zero = []
pages_before select (suc page) = pages_before select page ++ (fetch_page select page).runs

-- The ordered table, as the page shows runs.
unfoldable pub history : List ApiJobRun → List JobRun
unfolding map_api_job_run
history table = map map_api_job_run table

take-split : (m n : ℕ) (xs : List JobRun) → take m xs ++ take n (drop m xs) ≡ take (m + n) xs
take-split zero n xs = ap (λ k. take k xs) (omega arith)
take-split (suc m) n [] = take-nil n ∙ sym (take-nil (suc m + n))
take-split (suc m) n (x ∷ xs) =
    ap (◌∷◌ x) (take-split m n xs)
    ∙ ap (λ k. take k (x ∷ xs)) {x = suc (m + n)} {y = suc m + n} (omega arith)

map-drop : (n : ℕ) (xs : List ApiJobRun) → history (drop n xs) ≡ drop n (history xs)
unfolding history
map-drop zero xs = refl
map-drop (suc n) [] = refl
map-drop (suc n) (x ∷ xs) = map-drop n xs

map-take : (n : ℕ) (xs : List ApiJobRun) → history (take n xs) ≡ take n (history xs)
unfolding history
map-take zero xs = refl
map-take (suc n) [] = refl
map-take (suc n) (x ∷ xs) = ap (◌∷◌ (map_api_job_run x)) (map-take n xs)

pub length-history : (xs : List ApiJobRun) → length (history xs) ≡ length xs
unfolding history
length-history [] = refl
length-history (x ∷ xs) = ap suc (length-history xs)

cut_rows :
    (limit : ℕ) (found : List ApiJobRun)
    → (if ltb limit (length found) then take limit found else found) ≡ take limit found
cut_rows limit found = elim (Bool-cases (ltb limit (length found))) [
  | inl more ↦ rw more refl
  | inr few ↦ rw few (sym (take_of_length_le limit found (ground arith)))
]

-- A row more than the limit is there exactly if the table goes on behind the page.
one_more :
    (limit offset : ℕ) (table : List ApiJobRun)
    → ltb limit (length (slice offset (offset + (limit + 1)) table))
      ≡ ltb (offset + limit) (length table)
one_more limit offset table =
    let size = length-slice offset (offset + (limit + 1)) table in
    elim (Bool-cases (ltb (offset + limit) (length table))) [
      | inl more ↦
          let left : offset + limit < length table = ltb→lt (offset + limit) (length table) more in
          rw size (ground arith)
      | inr few ↦ rw size (ground arith)
    ]

module _ (select : Select) (table : List ApiJobRun) (ordered : IsOrdered select table) where
  -- The pages that the control-plane answers are those of a list.
  pub fetch_page-list :
      (page : ℕ) → fetch_page select page ≡ fetch_runs (history table) 10 (page * 10)
  unfolding fetch_page fetch_runs history
  fetch_page-list page =
      let o = page * 10 in
      let found = slice o (o + 11) table in
      let answer : select 11 o ≡ found = ordered.answers 11 o in
      let part =
        cut_rows 10 found
        ∙ (take-drop 10 o (take (o + 11) table)
            ∙ ap (drop o) (take-take (o + 10) (o + 11) table (omega arith))) in
      let shown =
        ap history part
        ∙ (map-drop o (take (o + 10) table) ∙ ap (drop o) (map-take (o + 10) table)) in
      rw answer (
        ap₂ (λ (rs : List JobRun) (m : Bool). record { runs = rs; has_more = m }) shown
          (one_more 10 o table ∙ ap (ltb (o + 10)) (sym (length-history table))))

  pages_before-take : (page : ℕ) → pages_before select page ≡ take (page * 10) (history table)
  unfolding fetch_runs
  pages_before-take zero = refl
  pages_before-take (suc page) =
      let runs = history table in
      ap₂ ◌++◌ (pages_before-take page)
        (ap (λ (p : RunsPage). p.runs) (fetch_page-list page) ∙ sym (take-drop 10 (page * 10) runs))
      ∙ (take-split (page * 10) 10 runs
          ∙ ap (λ k. take k runs) {x = page * 10 + 10} {y = suc page * 10} (omega arith))

  -- While the table of runs stays as it is, and the database orders runs of the same time of
  -- submission alike at each query: the pages shown one after another are the whole history, each run
  -- once and in order, up to the first page without a next one; and every page with a next one is
  -- full, with runs left after it.
  pub fetch_page_lem :
      (page : ℕ)
      → (((fetch_page select page).has_more ≡ false)
          × (pages_before select (suc page) ≡ history table))
        ⊎ (((fetch_page select page).has_more ≡ true)
            × (length (fetch_page select page).runs ≡ 10)
            × (length (pages_before select (suc page)) < length (history table)))
  unfolding fetch_runs
  fetch_page_lem page =
      let runs = history table in
      let shown = pages_before-take (suc page) in
      let same = fetch_page-list page in
      let more_lem = ap (λ (p : RunsPage). p.has_more) same in
      let runs_lem = ap (λ (p : RunsPage). length p.runs) same in
      elim (Bool-cases (ltb (page * 10 + 10) (length runs))) [
        | inl more ↦
            let size = length-slice (page * 10) (page * 10 + 10) runs in
            let taken = length-take (suc page * 10) runs in
            let left : page * 10 + 10 < length runs = ltb→lt (page * 10 + 10) (length runs) more in
            inr (more_lem ∙ more, runs_lem ∙ omega (arith, size), rw shown (omega (arith, taken)))
        | inr no_more ↦
            let few : length runs ≤ suc page * 10 = ground arith in
            inl (more_lem ∙ no_more, shown ∙ take_of_length_le (suc page * 10) runs few)
      ]

-- After a trigger every page shows what it showed before, and every page is due to be read again:
-- the run that was started comes to a page only with that.
on_trigger-pages :
    (run : JobRun) (cache : QueryCache) (page : ℕ)
    → let after = on_trigger_settled (on_trigger_success run cache) in
      (after.data_at (page_key page) ≡ cache.data_at (page_key page))
      × (after.stale (page_key page) ≡ true)
unfolding on_trigger_success on_trigger_settled
on_trigger-pages run cache page = (refl, refl)

some-injective : (a b : JobRun) → some a ≡ some b → a ≡ b
some-injective a b h = ap (or_self a) h
  where
    or_self : JobRun → Option JobRun → JobRun
    or_self d none = d
    or_self d (some x) = x

-- Stopping all runs leaves every place of the list filled: no run is in flight afterwards, and a run
-- that was not in flight before is unchanged.
cancel_all_runs_lem :
    (runs : List JobRun) (i : ℕ) (run : JobRun)
    → get_elem? runs i ≡ some run
    → (after : JobRun) × (get_elem? (cancel_all_runs runs) i ≡ some after)
      × (is_in_flight after.state ≡ false)
      × ((is_in_flight run.state ≡ true) ⊎ (after ≡ run))
unfolding cancel_all_runs
cancel_all_runs_lem [] i run h = cc
cancel_all_runs_lem (r ∷ rs) zero run h =
    let same : r ≡ run = some-injective r run h in
    elim (Bool-cases (is_in_flight r.state)) [
      | inl active ↦ (
        record r { state = JobState.cancelled },
        rw active refl,
        refl,
        inl (ap (λ (x : JobRun). is_in_flight x.state) (sym same) ∙ active),
      )
      | inr over ↦ (r, rw over refl, over, inr same)
    ]
cancel_all_runs_lem (r ∷ rs) (suc i) run h = cancel_all_runs_lem rs i run h
