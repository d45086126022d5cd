-- ===== src/Pipelines/RunAll/Trace.antt =====
-- What a run's effects show: the calls made and the phase shown last.
use openscale.Base.{ℕ, suc, Text, List, [], ◌∷◌}
use openscale.Pipelines.Runs.{Params}
use openscale.Pipelines.RunAll.{
  RunAllState, idle, running, stopped, done, Effect, set_state, trigger_run,
}

-- The jobs triggered with their parameters, in order.
abbrev pub calls : List Effect → List (Text × Params)
calls [] = []
calls (trigger_run job_type params ∷ es) = (job_type, params) ∷ calls es
calls (_ ∷ es) = calls es

-- The last phase that is set, from a given one on.
abbrev pub last_state : RunAllState → List Effect → RunAllState
last_state s [] = s
last_state s (set_state t ∷ es) = last_state t es
last_state s (_ ∷ es) = last_state s es

-- The number of stages begun when a phase is the last one set.
abbrev pub reached : RunAllState → ℕ
reached idle = 0
reached (running i) = suc i
reached (stopped i job_type s) = suc i
reached done = 5
