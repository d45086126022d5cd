-- ===== src/Pipelines/RunAll.antt =====
-- frontend/src/domains/pipelines/application/useRunAllJobs.ts: the sequential run of every stage.
-- An async call becomes the list of its effects; what the awaited calls give is an argument.
mod Trace
mod Phase
mod Calls
mod Tests
use openscale.Base.{
  ℕ, ◌+◌, Text, codes, List, [], ◌∷◌, ◌++◌, Bool, true, false, if◌then◌else◌, text_eq, get_elem?,
}
use openscale.Pipelines.Runs.{JobState, failed, cancelled, Params}

-- The stages in dependency order, by their job types.
abbrev pub pipeline_order : List Text
pipeline_order =
    codes "ingest" ∷ codes "silver" ∷ codes "gold" ∷ codes "features" ∷ codes "train" ∷ []

pub data RunAllState : Type 0 where
  idle : RunAllState
  running : ℕ → RunAllState
  stopped : ℕ → Text → JobState → RunAllState
  done : RunAllState

-- What `await triggerRun(…)` and then `await waitForRunTerminal(run.id)` give for one step.
pub data Outcome : Type 0 where
  trigger_rejected : Outcome
  wait_rejected : Text → Outcome
  finished : Text → JobState → Outcome

pub data Effect : Type 0 where
  set_state : RunAllState → Effect
  trigger_run : Text → Params → Effect
  on_run_started : Text → Effect
  -- The promise of the whole call is rejected.
  rejected : Effect

-- `finalState === 'failed' || finalState === 'cancelled'`
abbrev pub stops : JobState → Bool
stops failed = true
stops cancelled = true
stops _ = false

abbrev pub params_for : Text → Params → Params
params_for job_type range = if text_eq job_type (codes "ingest") then range else []

-- The rest of the body once the awaited calls of step `i` have settled; `later` is the rest of
-- the loop.
abbrev pub after_step : ℕ → Text → Outcome → List Effect → List Effect
after_step i job_type trigger_rejected later = rejected ∷ []
after_step i job_type (wait_rejected id) later = on_run_started id ∷ rejected ∷ []
after_step i job_type (finished id final_state) later =
    on_run_started id
    ∷ (if stops final_state then set_state (stopped i job_type final_state) ∷ [] else later)

module _ (range : Params) (outcome : ℕ → Outcome) where
  -- The loop, at index `i` with the given stages left.
  unfoldable pub run_steps : ℕ → List Text → List Effect
  run_steps i [] = set_state done ∷ []
  run_steps i (job_type ∷ job_types) =
      let later = run_steps (i + 1) job_types in
      set_state (running i)
      ∷ trigger_run job_type (params_for job_type range)
      ∷ after_step i job_type (outcome i) later

  unfoldable pub run_all : List Effect
  run_all = run_steps 0 pipeline_order

-- The timer of the hook: a finished run falls back to the idle state, and no other phase does.
unfoldable pub after_done_delay : RunAllState → RunAllState
after_done_delay done = idle
after_done_delay state = state
