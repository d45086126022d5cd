-- ===== src/Pipelines/Events/Tests.antt =====
-- Frames of one job run, on the log panel and on the promise of its final state.
use openscale.Base.{codes, List, [], ◌∷◌, ◌++◌, none, some, ◌≡◌, refl, ◌↔◌, All}
use openscale.Pipelines.Runs.{running, partial, queued, succeeded}
use openscale.Pipelines.Events.{
  Frame, JobRunEventsState, on_messages, on_message, backfilled_lines, SocketEvent, message, closed,
  resolved, pending, wait_for_run_terminal, wait_from, wait_step, split_lines,
}
use openscale.Pipelines.Events.Laws.{on_messages-backfill, last_status, logged}
use openscale.Pipelines.Events.Wait.{wait-resolved_iff, ResolvedBy, wait-pending_iff, IsQuiet}

abbrev empty : JobRunEventsState
empty = record { state = none; log_lines = [] }

abbrev live : List Frame
live = Frame.log (codes "step 1") ∷ Frame.malformed ∷ Frame.status partial ∷ []

abbrev opening : Frame
opening = Frame.backfill running (some (codes "a\nb"))

panel_shows :
    on_messages empty (opening ∷ live)
    ≡ record { state = some partial; log_lines = codes "a" ∷ codes "b" ∷ codes "step 1" ∷ [] }
unfolding on_messages on_message split_lines
panel_shows = refl

on_messages-backfill_example :
    on_messages empty ((Frame.status queued ∷ []) ++ opening ∷ live) ≡ record {
      state = some (last_status running live);
      log_lines = backfilled_lines (some (codes "a\nb")) ++ logged live;
    }
on_messages-backfill_example =
    on_messages-backfill empty (Frame.status queued ∷ []) running (some (codes "a\nb")) live
      (tt, (tt, (tt, tt)))

abbrev events : List SocketEvent
events = message opening ∷ message (Frame.status succeeded) ∷ closed ∷ []

wait-resolved_iff_example :
    (wait_for_run_terminal events ≡ resolved succeeded) ↔ ResolvedBy events succeeded
wait-resolved_iff_example = wait-resolved_iff events succeeded

wait_resolves : wait_for_run_terminal events ≡ resolved succeeded
unfolding wait_for_run_terminal wait_from wait_step
wait_resolves = refl

abbrev dropped : List SocketEvent
dropped = message opening ∷ closed ∷ []

wait-pending_iff_example : (wait_for_run_terminal dropped ≡ pending) ↔ All IsQuiet dropped
wait-pending_iff_example = wait-pending_iff dropped

dropped_hangs : wait_for_run_terminal dropped ≡ pending
unfolding wait_for_run_terminal wait_from wait_step
dropped_hangs = refl
