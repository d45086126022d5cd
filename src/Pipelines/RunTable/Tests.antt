-- ===== src/Pipelines/RunTable/Tests.antt =====
-- Pages and rows of a short history.
use openscale.Base.{
  ◌+◌, slice, ℕ, zero, suc, codes, List, [], ◌∷◌, none, some, true, ◌≡◌, ◌<◌, ◌≤◌, refl, arith,
  length,
}
use openscale.Base.Decimal.{show}
use openscale.Pipelines.Runs.{ApiJobRun, JobRun, JobState, derive_run_status, state_label, warn}
use openscale.Pipelines.Duration.{format_run_duration}
use openscale.Pipelines.RunList.{Select, fetch_page}
use openscale.Pipelines.RunTable.{
  Formats, previous, next, turn_page, turn_pages, format_ended, run_row, format_run_time,
  format_run_rows,
}
use openscale.Pipelines.RunTable.Laws.{turn_pages_bounds}

still_running : format_ended (λ iso. iso) none JobState.running ≡ codes "(running)"
unfolding format_ended
still_running = refl

abbrev queued_run : JobRun
queued_run = record {
  id = codes "r1";
  job_type = codes "gold";
  params = [];
  state = JobState.queued;
  submitted_at = codes "8:00";
  started_at = none;
  finished_at = none;
  error = none;
  rows_processed = none;
}

abbrev formats : Formats
formats = record {
  locale_time = λ t. t;
  locale_count = show;
  clock = record { get_time = λ t. none; now = 0 };
}

a_queued_row : run_row formats (some (codes "r1")) queued_run ≡ record {
  is_selected = true;
  selects = codes "r1";
  words = codes "gold" ∷ codes "8:00" ∷ codes "—" ∷ codes "(queued)" ∷ codes "(queued)" ∷ [];
  status = warn;
  status_label = codes "queued";
  rows = codes "—";
}
unfolding run_row format_run_time format_run_rows format_ended format_run_duration derive_run_status
    state_label
a_queued_row = refl

abbrev stored_run : ApiJobRun
stored_run = record {
  id = codes "r1";
  job_type = codes "gold";
  params = [];
  status = JobState.queued;
  submitted_at = codes "8:00";
  started_at = none;
  finished_at = none;
  error = none;
  log_output = none;
  rows_processed = none;
}

abbrev twelve : List ApiJobRun
twelve = copies 12
  where
    copies : ℕ → List ApiJobRun
    copies zero = []
    copies (suc n) = stored_run ∷ copies n

abbrev select : Select
select limit offset = slice offset (offset + limit) twelve

to_the_second_page : turn_pages select 0 (previous ∷ next ∷ next ∷ []) ≡ 1
unfolding turn_pages turn_page fetch_page
to_the_second_page = refl

turn_pages_bounds_example :
    let shown = length (fetch_page select (turn_pages select 0 (next ∷ next ∷ []))).runs in
    (0 < shown) × (shown ≤ 10)
turn_pages_bounds_example =
    turn_pages_bounds select twelve (record { answers = λ limit offset. refl }) (next ∷ next ∷ [])
      (omega arith)
