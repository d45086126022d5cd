-- ===== src/Pipelines/Events.antt =====
-- The live socket of one job run: frontend/src/domains/pipelines/application/useJobRunEvents.ts
-- (the log panel's state) and waitForRunTerminal.ts (a promise of the final state). Both read the
-- same frames: a connect-time backfill with no `type`, then `status` and `log` events.
mod Laws
pub mod Wait
mod Tests
use openscale.Base.{
  Text, List, [], ◌∷◌, ◌++◌, Option, none, some, Bool, true, false, if◌then◌else◌, ◌==◌,
}
use openscale.Pipelines.Runs.{JobState, is_terminal}

-- A frame as `JSON.parse` and the tests on `type` read it. `malformed` makes the parse throw, and
-- the handler changes nothing; `other` has a `type` that is neither `status` nor `log`.
pub data Frame : Type 0 where
  malformed : Frame
  other : Frame
  status : JobState → Frame
  log : Text → Frame
  backfill : JobState → Option Text → Frame

pub record JobRunEventsState : Type 0 where
  pub state : Option JobState
  pub log_lines : List Text

pub data Action : Type 0 where
  reset : Action
  backfill : JobState → Option Text → Action
  status : JobState → Action
  log : Text → Action

-- Puts a code unit in front of the first line.
abbrev pub onto_first : Text → List Text → List Text
onto_first front [] = front ∷ []
onto_first front (line ∷ lines) = (front ++ line) ∷ lines

-- `s.split('\n')`
unfoldable pub split_lines : Text → List Text
split_lines [] = [] ∷ []
split_lines (c ∷ cs) =
    let rest = split_lines cs in if c == 10 then [] ∷ rest else onto_first (c ∷ []) rest

-- `log ? log.split('\n') : []`
abbrev pub backfilled_lines : Option Text → List Text
backfilled_lines none = []
backfilled_lines (some []) = []
backfilled_lines (some (c ∷ cs)) = split_lines (c ∷ cs)

unfoldable pub reducer : JobRunEventsState → Action → JobRunEventsState
reducer current reset = record { state = none; log_lines = [] }
reducer current (Action.backfill state log_output) = record {
  state = some state;
  log_lines = backfilled_lines log_output;
}
reducer current (Action.status state) = record current { state = some state }
reducer current (Action.log line) = record current { log_lines = current.log_lines ++ line ∷ [] }

-- `socket.onmessage` of the hook.
unfoldable pub on_message : JobRunEventsState → Frame → JobRunEventsState
unfolding reducer
on_message s malformed = s
on_message s other = s
on_message s (Frame.status state) = reducer s (Action.status state)
on_message s (Frame.log line) = reducer s (Action.log line)
on_message s (Frame.backfill state log_output) = reducer s (Action.backfill state log_output)

unfoldable pub on_messages : JobRunEventsState → List Frame → JobRunEventsState
on_messages s [] = s
on_messages s (f ∷ fs) = on_messages (on_message s f) fs

-- What the socket of `waitForRunTerminal` can report; `onclose` has no handler there.
pub data SocketEvent : Type 0 where
  message : Frame → SocketEvent
  failure : SocketEvent
  closed : SocketEvent

pub data Settled : Type 0 where
  pending : Settled
  resolved : JobState → Settled
  rejected : Settled

-- `'type' in data ? (data.type === 'status' ? data.status : undefined) : data.status`
abbrev pub carried_state : Frame → Option JobState
carried_state malformed = none
carried_state other = none
carried_state (Frame.status state) = some state
carried_state (Frame.log line) = none
carried_state (Frame.backfill state log_output) = some state

-- `resolve` and `reject` of a promise that is settled already do nothing.
abbrev pub settle : Settled → Settled → Settled
settle pending outcome = outcome
settle (resolved s) outcome = resolved s
settle rejected outcome = rejected

abbrev pub resolve_terminal : Option JobState → Settled
resolve_terminal none = pending
resolve_terminal (some state) = if is_terminal state then resolved state else pending

unfoldable pub wait_step : Settled → SocketEvent → Settled
wait_step p (message f) = settle p (resolve_terminal (carried_state f))
wait_step p failure = settle p rejected
wait_step p closed = p

unfoldable pub wait_from : Settled → List SocketEvent → Settled
wait_from p [] = p
wait_from p (e ∷ es) = wait_from (wait_step p e) es

unfoldable pub wait_for_run_terminal : List SocketEvent → Settled
wait_for_run_terminal events = wait_from pending events
