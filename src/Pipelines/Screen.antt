-- ===== src/Pipelines/Screen.antt =====
-- frontend/src/domains/pipelines/ui/PipelinesScreen.tsx: what the rows of the catalog show while all
-- stages run, and which run is selected.
mod Laws
pub mod Page
mod Tests
use openscale.Base.{
  ℕ, ◌+◌, Text, codes, text_eq, List, [], ◌∷◌, ◌++◌, Option, none, some, Bool, true, false, ◌&&◌,
  ltb, any, find, length, get_elem?, if◌then◌else◌,
}
use openscale.Base.Decimal.{show}
use openscale.Pipelines.Runs.{JobRun, JobState, is_in_flight, state_text}
use openscale.Pipelines.RunAll.{RunAllState, idle, running, stopped, done, pipeline_order}

-- `PIPELINE_ORDER.indexOf(job.type)`, `none` for -1.
abbrev pub index_of : Text → List Text → Option ℕ
index_of job_type [] = none
index_of job_type (t ∷ ts) =
    if text_eq t job_type
    then some 0
    else elim (index_of job_type ts) [ none ↦ none | some i ↦ some (i + 1) ]

pub data StepStatus : Type 0 where
  completed queued : StepStatus

abbrev pub step_status_at : Option ℕ → ℕ → Option StepStatus
step_status_at none step_index = none
step_status_at (some i) step_index =
    if ltb i step_index then some completed else if ltb step_index i then some queued else none

-- `runAllStepStatus` of a row.
unfoldable pub run_all_step_status : RunAllState → Text → Option StepStatus
run_all_step_status (running step_index) job_type =
    step_status_at (index_of job_type pipeline_order) step_index
run_all_step_status idle job_type = none
run_all_step_status (stopped step_index stopped_type final_state) job_type = none
run_all_step_status done job_type = none

abbrev pub or_undefined : Option Text → Text
or_undefined none = codes "undefined"
or_undefined (some t) = t

abbrev pub step_text : ℕ → Text
step_text step_index = show (step_index + 1) ++ (codes " of " ++ show (length pipeline_order))

-- The text in the header, `none` while idle.
unfoldable pub run_all_label : RunAllState → Option Text
run_all_label idle = none
run_all_label (running step_index) = some (
    codes "Step "
    ++ (step_text step_index
        ++ (codes " — " ++ or_undefined (get_elem? pipeline_order step_index))))
run_all_label (stopped step_index job_type final_state) = some (
    codes "Stopped at step "
    ++ (step_text step_index
        ++ (codes " (" ++ (job_type ++ (codes " " ++ (state_text final_state ++ codes ")"))))))
run_all_label done =
    some (codes "All " ++ (show (length pipeline_order) ++ codes " steps complete"))

abbrev pub in_flight : JobRun → Bool
in_flight run = is_in_flight run.state

-- `hasActiveRuns`
abbrev pub has_active_runs : Option (List JobRun) → Bool
has_active_runs none = false
has_active_runs (some runs) = any in_flight runs

-- `runningRun` of a row.
abbrev pub running_run : Text → Option (List JobRun) → Option JobRun
running_run job_type none = none
running_run job_type (some runs) = find (λ run. text_eq run.job_type job_type && in_flight run) runs

abbrev pub found_id : Option JobRun → Option Text
found_id none = none
found_id (some run) = some run.id

-- The effect on `[runs, selectedRunId]`.
unfoldable pub reselect : Option (List JobRun) → Option Text → Option Text
reselect none selected = selected
reselect (some runs) none = found_id (find in_flight runs)
reselect (some runs) (some id) = some id
