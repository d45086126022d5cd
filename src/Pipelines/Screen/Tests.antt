-- ===== src/Pipelines/Screen/Tests.antt =====
-- The screen while `gold` runs.
use openscale.Base.{codes, [], ◌∷◌, none, some, ◌≡◌, refl}
use openscale.Base.Decimal.{show}
use openscale.Pipelines.Runs.{JobRun, JobState}
use openscale.Pipelines.RunAll.{running, stopped}
use openscale.Pipelines.Screen.{completed, run_all_step_status, run_all_label, reselect}

label : run_all_label (running 2) ≡ some (codes "Step 3 of 5 — gold")
unfolding run_all_label show
label = refl

stopped_label :
    run_all_label (stopped 0 (codes "ingest") JobState.failed)
    ≡ some (codes "Stopped at step 1 of 5 (ingest failed)")
unfolding run_all_label show
stopped_label = refl

silver_is_completed : run_all_step_status (running 2) (codes "silver") ≡ some completed
unfolding run_all_step_status
silver_is_completed = refl

abbrev live_run : JobRun
live_run = record {
  id = codes "r2";
  job_type = codes "gold";
  params = [];
  state = JobState.running;
  submitted_at = codes "2026-08-11T09:41:02Z";
  started_at = none;
  finished_at = none;
  error = none;
  rows_processed = none;
}

refresh_selects : reselect (some (live_run ∷ [])) none ≡ some (codes "r2")
unfolding reselect
refresh_selects = refl
