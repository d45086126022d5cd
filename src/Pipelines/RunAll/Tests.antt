-- ===== src/Pipelines/RunAll/Tests.antt =====
-- Two sequential runs: all steps pass, and the third is cancelled.
use openscale.Base.{ℕ, zero, suc, codes, [], ◌∷◌, take, ◌≡◌, refl}
use openscale.Pipelines.Runs.{succeeded, partial, cancelled, Params}
use openscale.Pipelines.RunAll.{
  Outcome, finished, wait_rejected, run_all, run_steps, idle, stopped, done, running,
}
use openscale.Pipelines.RunAll.Trace.{last_state, calls, reached}
use openscale.Pipelines.RunAll.Phase.{Explains, run_all-Explains}
use openscale.Pipelines.RunAll.Calls.{calls-run_all, all_calls}

abbrev range : Params
range = (codes "start", codes "2024-07") ∷ (codes "end", codes "2024-12") ∷ []

abbrev third_cancelled : ℕ → Outcome
third_cancelled zero = finished (codes "r1") succeeded
third_cancelled (suc zero) = finished (codes "r2") partial
third_cancelled (suc (suc i)) = finished (codes "r3") cancelled

abbrev all_succeed : ℕ → Outcome
all_succeed i = finished (codes "r") succeeded

cancelled_stops :
    last_state idle (run_all range third_cancelled) ≡ stopped 2 (codes "gold") cancelled
unfolding run_all run_steps
cancelled_stops = refl

success_is_done : last_state idle (run_all range all_succeed) ≡ done
unfolding run_all run_steps
success_is_done = refl

lost_socket_keeps_running :
    last_state idle (run_all range (λ i. wait_rejected (codes "r"))) ≡ running 0
unfolding run_all run_steps
lost_socket_keeps_running = refl

run_all-Explains_example :
    Explains third_cancelled (last_state idle (run_all range third_cancelled))
run_all-Explains_example = run_all-Explains range third_cancelled

calls-run_all_example :
    calls (run_all range third_cancelled)
    ≡ take (reached (last_state idle (run_all range third_cancelled))) (all_calls range)
calls-run_all_example = calls-run_all range third_cancelled
