-- ===== src/Pipelines/RunTable/Laws.antt =====
-- Where the pager may come to.
use openscale.Base.{
  ℕ, ◌+◌, ◌*◌, ◌<◌, ◌≤◌, List, [], ◌∷◌, arith, length, length-slice, ltb, ltb→lt, Bool-cases, inl,
  inr, ap, ◌∙◌,
}
use openscale.Pipelines.Runs.{ApiJobRun}
use openscale.Pipelines.RunList.{Select, IsOrdered, RunsPage, fetch_page, fetch_runs}
use openscale.Pipelines.RunList.Laws.{history, length-history, fetch_page-list}
use openscale.Pipelines.RunTable.{Turn, previous, next, turn_page, turn_pages}

module _ (select : Select) (table : List ApiJobRun) (ordered : IsOrdered select table) where
  -- The page begins within the history.
  turn_page-inside :
      (page : ℕ) (t : Turn)
      → page * 10 < length (history table)
      → turn_page select page t * 10 < length (history table)
  unfolding turn_page fetch_runs
  turn_page-inside page previous h = ground arith
  turn_page-inside page next h =
      let more_lem =
        ap (λ (p : RunsPage). p.has_more) (fetch_page-list select table ordered page) in
      elim (Bool-cases (ltb (page * 10 + 10) (length (history table)))) [
        | inl more ↦
            let left : page * 10 + 10 < length (history table) =
              ltb→lt (page * 10 + 10) (length (history table)) more in
            rw (more_lem ∙ more) (omega arith)
        | inr no_more ↦ rw (more_lem ∙ no_more) h
      ]

  turn_pages-inside :
      (page : ℕ) (ts : List Turn)
      → page * 10 < length (history table)
      → turn_pages select page ts * 10 < length (history table)
  unfolding turn_pages
  turn_pages-inside page [] h = h
  turn_pages-inside page (t ∷ ts) h =
      turn_pages-inside (turn_page select page t) ts (turn_page-inside page t h)

  -- While the table has at least one run and stays as it is, and the database orders runs of the same
  -- time of submission alike at each query: whatever the user clicks on the pager from the first page
  -- on, the page shown has a run, and at most ten.
  pub turn_pages_bounds :
      (ts : List Turn)
      → 0 < length table
      → let shown = length (fetch_page select (turn_pages select 0 ts)).runs in
        (0 < shown) × (shown ≤ 10)
  unfolding fetch_runs
  turn_pages_bounds ts h =
      let page = turn_pages select 0 ts in
      let runs = history table in
      let same = ap (λ (p : RunsPage). length p.runs) (fetch_page-list select table ordered page) in
      let inside = turn_pages-inside 0 ts (omega (arith, length-history table)) in
      let size = same ∙ length-slice (page * 10) (page * 10 + 10) runs in
      (omega (arith, inside, size), omega (arith, size))
