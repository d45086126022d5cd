-- ===== src/Streaming/Replay.antt =====
-- frontend/src/domains/streaming/ui/ReplayControls.tsx, the controls of a replay in flight, and the
-- test of ui/StreamingScreen.tsx that shows them.
mod Tests
use openscale.Base.{
  ℕ, Text, text_eq, List, [], ◌∷◌, ◌++◌, Option, none, some, Bool, true, false, not, if◌then◌else◌,
}
use openscale.Pipelines.Runs.{JobState, is_terminal}

pub data JobControlAction : Type 0 where
  pause resume cancel set_speed : JobControlAction

-- The commands sent, newest last, each with its speed multiplier.
pub record ReplayState : Type 0 where
  pub active_job_id : Option Text
  pub pause_intent : Bool
  pub speed : ℕ
  pub sent : List (JobControlAction × Option ℕ)

-- `onControl`: without a job nothing is sent.
abbrev pub on_control : JobControlAction → Option ℕ → ReplayState → ReplayState
on_control action multiplier s = elim s.active_job_id [
  | none ↦ s
  | some id ↦ record s { sent = s.sent ++ (action, multiplier) ∷ [] }
]

unfoldable pub toggle_pause : ReplayState → ReplayState
toggle_pause s =
    let after = on_control (if s.pause_intent then resume else pause) none s in
    record after { pause_intent = not s.pause_intent }

unfoldable pub handle_speed_change : ℕ → ReplayState → ReplayState
handle_speed_change value s = on_control set_speed (some value) (record s { speed = value })

unfoldable pub cancel_replay : ReplayState → ReplayState
cancel_replay s = on_control cancel none s

abbrev pub same_id : Option Text → Option Text → Bool
same_id none none = true
same_id none (some t) = false
same_id (some s) none = false
same_id (some s) (some t) = text_eq s t

-- A new active job, with the effect on `[activeJobId]`.
unfoldable pub set_active_job : Option Text → ReplayState → ReplayState
set_active_job id s =
    if same_id s.active_job_id id
    then s
    else record s { active_job_id = id; pause_intent = false; speed = 1 }

-- `isActive`
abbrev pub is_active : Option Text → Option JobState → Bool
is_active none state = false
is_active (some id) none = false
is_active (some id) (some state) = not (is_terminal state)
