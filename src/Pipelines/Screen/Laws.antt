-- ===== src/Pipelines/Screen/Laws.antt =====
-- What the rows show while all stages run.
use openscale.Base.{
  ℕ, zero, suc, Text, Option, none, some, ltb, get_elem?, if◌then◌else◌, ◌≡◌, refl, ap,
}
use openscale.Pipelines.RunAll.{running, pipeline_order}
use openscale.Pipelines.Screen.{StepStatus, completed, queued, run_all_step_status}

-- The status of the stage at place `k` while step `i` runs.
abbrev pub expected_status : ℕ → ℕ → Option StepStatus
expected_status i k = if ltb k i then some completed else if ltb i k then some queued else none

stage_of : {a b : Text} → some a ≡ some b → a ≡ b
stage_of {a} h = ap (λ o. elim o [ none ↦ a | some t ↦ t ]) h

-- While step `i` of all stages runs, the row of the stage at place `k` of the order is shown as
-- completed before `i`, as queued after it, and by its own run at `i`.
run_all_step_status_lem :
    (i k : ℕ) (job_type : Text)
    → get_elem? pipeline_order k ≡ some job_type
    → run_all_step_status (running i) job_type ≡ expected_status i k
unfolding run_all_step_status
run_all_step_status_lem i zero job_type h = rw (← stage_of h) refl
run_all_step_status_lem i (suc zero) job_type h = rw (← stage_of h) refl
run_all_step_status_lem i (suc (suc zero)) job_type h = rw (← stage_of h) refl
run_all_step_status_lem i (suc (suc (suc zero))) job_type h = rw (← stage_of h) refl
run_all_step_status_lem i (suc (suc (suc (suc zero)))) job_type h = rw (← stage_of h) refl
run_all_step_status_lem i (suc (suc (suc (suc (suc k))))) job_type h = cc
