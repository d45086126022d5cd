-- ===== src/Pipelines/RunList/Tests.antt =====
-- A history of twelve runs, one of them running, in two pages.
use openscale.Base.{
  ◌+◌, slice, ℕ, zero, suc, ◌<◌, codes, List, [], ◌∷◌, none, some, true, false, ◌≡◌, ◌⊎◌, refl,
  length,
}
use openscale.Pipelines.Runs.{JobState, ApiJobRun, map_api_job_run}
use openscale.Pipelines.RunList.{Select, IsOrdered, fetch_runs, fetch_page, QueryCache, page_data}
use openscale.Pipelines.RunList.Laws.{history, pages_before, fetch_page_lem}

abbrev done_run : ApiJobRun
done_run = record {
  id = codes "r1";
  job_type = codes "gold";
  params = [];
  status = JobState.succeeded;
  submitted_at = codes "2026-08-11T09:41:02Z";
  started_at = none;
  finished_at = none;
  error = none;
  log_output = none;
  rows_processed = none;
}

abbrev live_run : ApiJobRun
live_run = record done_run { id = codes "r2"; status = JobState.running }

abbrev repeat : ℕ → List ApiJobRun
repeat zero = []
repeat (suc n) = done_run ∷ repeat n

abbrev table : List ApiJobRun
table = live_run ∷ repeat 11

abbrev select : Select
select limit offset = slice offset (offset + limit) table

select-IsOrdered : IsOrdered select table
select-IsOrdered = record { answers = λ limit offset. refl }

second_page :
    fetch_page select 1
    ≡ record { runs = map_api_job_run done_run ∷ map_api_job_run done_run ∷ []; has_more = false }
unfolding fetch_page
second_page = refl

-- The mock gateway gives the same page of the same runs.
second_mock_page :
    (fetch_runs (history table) 10 10).runs
    ≡ map_api_job_run done_run ∷ map_api_job_run done_run ∷ []
unfolding fetch_runs history
second_mock_page = refl

fetch_page_example :
    (((fetch_page select 1).has_more ≡ false) × (pages_before select 2 ≡ history table))
    ⊎ (((fetch_page select 1).has_more ≡ true)
        × (length (fetch_page select 1).runs ≡ 10)
        × (length (pages_before select 2) < length (history table)))
fetch_page_example = fetch_page_lem select table select-IsOrdered 1

abbrev cache : QueryCache
cache = record {
  data_at = λ k. some (page_data (record { runs = history table; has_more = true }));
  stale = λ k. false;
}
