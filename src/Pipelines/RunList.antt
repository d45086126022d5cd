-- ===== src/Pipelines/RunList.antt =====
-- The run history: `ListRuns` of control-plane/internal/api/jobs_handler.go and `ListJobRuns` of
-- control-plane/internal/db/db.go, which give a page; `fetchRuns` of
-- frontend/src/domains/pipelines/infrastructure/httpJobsGateway.ts, which asks for it;
-- application/useJobRuns.ts (its pages); infrastructure/mockJobsGateway.ts (the same operations over a
-- list of runs); and the query cache that application/useTriggerJob.ts writes, by keys.
pub mod Laws
mod Tests
use openscale.Base.{
  ℕ, ◌+◌, ◌*◌, ◌==◌, Text, codes, text_eq, List, [], ◌∷◌, ◌++◌, map, Option, none, some, Bool, true,
  false, ◌&&◌, ltb, if◌then◌else◌, slice, length, take, ◌≡◌,
}
use openscale.Pipelines.Runs.{JobRun, JobState, is_in_flight, ApiJobRun, map_api_job_run}

pub record RunsPage : Type 0 where
  pub runs : List JobRun
  pub has_more : Bool

-- `fetchRuns({ limit, offset })`, over `MOCK_RUNS`.
unfoldable pub fetch_runs : List JobRun → ℕ → ℕ → RunsPage
fetch_runs mock_runs limit offset = record {
  runs = slice offset (offset + limit) mock_runs;
  has_more = ltb (offset + limit) (length mock_runs);
}

-- `clearRuns()`: `MOCK_RUNS.length = 0`.
abbrev pub clear_runs : List JobRun → List JobRun
clear_runs mock_runs = []

abbrev pub cancel_run : JobRun → JobRun
cancel_run run = if is_in_flight run.state then record run { state = JobState.cancelled } else run

-- `cancelAllRuns()`
unfoldable pub cancel_all_runs : List JobRun → List JobRun
cancel_all_runs mock_runs = map cancel_run mock_runs

abbrev pub runs_page_size : ℕ
runs_page_size = 10

-- The database's answer to the query of `ListJobRuns`, by `LIMIT` and `OFFSET`: rows as the JSON of
-- the response shows them.
abbrev pub Select : Type 0
Select = ℕ → ℕ → List ApiJobRun

pub record ApiRunsResponse : Type 0 where
  pub runs : List ApiJobRun
  pub has_more : Bool

module _ (select : Select) where
  -- `ListJobRuns`, where the database answers: one row more than the limit is asked for.
  unfoldable pub list_job_runs : ℕ → ℕ → ApiRunsResponse
  list_job_runs limit offset =
      let found = select (limit + 1) offset in
      let has_more = ltb limit (length found) in
      record { runs = if has_more then take limit found else found; has_more = has_more }

  -- `ListRuns`, for numbers in the query: a limit of 0 is not taken.
  unfoldable pub list_runs : ℕ → ℕ → ApiRunsResponse
  unfolding list_job_runs
  list_runs limit offset = list_job_runs (if limit == 0 then 20 else limit) offset

  -- `httpJobsGateway.fetchRuns({ limit, offset })`
  unfoldable pub fetch_runs_over_http : ℕ → ℕ → RunsPage
  unfolding list_runs map_api_job_run
  fetch_runs_over_http limit offset =
      let res = list_runs limit offset in
      record { runs = map map_api_job_run res.runs; has_more = res.has_more }

  -- The query of `useJobRunsPage(page)`.
  unfoldable pub fetch_page : ℕ → RunsPage
  unfolding fetch_runs_over_http
  fetch_page page = fetch_runs_over_http runs_page_size (page * runs_page_size)

-- While the table stays as it is, and the database orders runs of the same time of submission alike at
-- each query, an answer is the part of the ordered table from the offset on, up to the limit.
pub record IsOrdered (select : Select) (table : List ApiJobRun) : Type 0 where
  pub answers : (limit offset : ℕ) → select limit offset ≡ slice offset (offset + limit) table

-- A part of a query key.
pub data KeyPart : Type 0 where
  text : Text → KeyPart
  number : ℕ → KeyPart

abbrev pub QueryKey : Type 0
QueryKey = List KeyPart

abbrev pub part_eq : KeyPart → KeyPart → Bool
part_eq (text s) (text t) = text_eq s t
part_eq (text s) (number n) = false
part_eq (number m) (text t) = false
part_eq (number m) (number n) = m == n

abbrev pub key_eq : QueryKey → QueryKey → Bool
key_eq [] [] = true
key_eq [] (q ∷ qs) = false
key_eq (p ∷ ps) [] = false
key_eq (p ∷ ps) (q ∷ qs) = part_eq p q && key_eq ps qs

-- The partial match of `invalidateQueries`.
abbrev pub is_prefix : QueryKey → QueryKey → Bool
is_prefix [] key = true
is_prefix (p ∷ ps) [] = false
is_prefix (p ∷ ps) (q ∷ qs) = part_eq p q && is_prefix ps qs

-- What the cache holds under a key: a page, or the list that the trigger writes.
pub data Cached : Type 0 where
  page_data : RunsPage → Cached
  runs_data : List JobRun → Cached

pub record QueryCache : Type 0 where
  pub data_at : QueryKey → Option Cached
  pub stale : QueryKey → Bool

-- `['pipelines', 'runs']`, the trigger's `QUERY_KEY`.
abbrev pub runs_key : QueryKey
runs_key = text (codes "pipelines") ∷ text (codes "runs") ∷ []

-- The key of `useJobRunsPage(page)`.
abbrev pub page_key : ℕ → QueryKey
page_key page = text (codes "pipelines") ∷ text (codes "runs") ∷ number page ∷ []

abbrev pub set_query_data : QueryKey → Cached → QueryCache → QueryCache
set_query_data key value cache = record cache {
  data_at = λ k. if key_eq k key then some value else cache.data_at k;
}

abbrev pub invalidate : QueryKey → QueryCache → QueryCache
invalidate key cache = record cache { stale = λ k. if is_prefix key k then true else cache.stale k }

-- `current ? [run, ...current] : [run]`; only this hook writes the key, so a page never stands there.
abbrev pub prepended : JobRun → Option Cached → List JobRun
prepended run none = run ∷ []
prepended run (some (runs_data current)) = run ∷ current
prepended run (some (page_data page)) = run ∷ []

-- `onSuccess` and `onSettled` of `useTriggerJob`.
unfoldable pub on_trigger_success : JobRun → QueryCache → QueryCache
on_trigger_success run cache =
    set_query_data runs_key (runs_data (prepended run (cache.data_at runs_key))) cache

unfoldable pub on_trigger_settled : QueryCache → QueryCache
on_trigger_settled cache = invalidate runs_key cache
