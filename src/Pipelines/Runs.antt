-- ===== src/Pipelines/Runs.antt =====
-- frontend/src/domains/pipelines/domain/entities.ts and rules.ts: job runs, their states and the
-- status that a state is shown as; infrastructure/apiMapping.ts: the wire shape.
use openscale.Base.{ℕ, Text, codes, List, [], ◌∷◌, Bool, true, false, Option, none, some}

pub data JobState : Type 0 where
  queued running succeeded partial failed cancelled : JobState

-- frontend/src/shared/types/status.ts
pub data Status : Type 0 where
  good warn crit : Status

-- `params` is `Record<string, unknown>`: the texts that the forms put there.
abbrev pub Params : Type 0
Params = List (Text × Text)

pub record JobRun : Type 0 where
  pub id : Text
  pub job_type : Text
  pub params : Params
  pub state : JobState
  pub submitted_at : Text
  pub started_at : Option Text
  pub finished_at : Option Text
  pub error : Option Text
  pub rows_processed : Option ℕ

pub record ApiJobRun : Type 0 where
  pub id : Text
  pub job_type : Text
  pub params : Params
  pub status : JobState
  pub submitted_at : Text
  pub started_at : Option Text
  pub finished_at : Option Text
  pub error : Option Text
  pub log_output : Option Text
  pub rows_processed : Option ℕ

unfoldable pub map_api_job_run : ApiJobRun → JobRun
map_api_job_run api = record {
  id = api.id;
  job_type = api.job_type;
  params = api.params;
  state = api.status;
  submitted_at = api.submitted_at;
  started_at = api.started_at;
  finished_at = api.finished_at;
  error = api.error;
  rows_processed = api.rows_processed;
}

unfoldable pub derive_run_status : JobState → Status
derive_run_status succeeded = good
derive_run_status failed = crit
derive_run_status _ = warn

unfoldable pub state_label : JobState → Text
state_label succeeded = codes "success"
state_label partial = codes "partial"
state_label failed = codes "failed"
state_label running = codes "running"
state_label queued = codes "queued"
state_label cancelled = codes "cancelled"

abbrev pub is_queued : JobState → Bool
is_queued queued = true
is_queued _ = false

-- `state === 'queued' || state === 'running'`
abbrev pub is_in_flight : JobState → Bool
is_in_flight queued = true
is_in_flight running = true
is_in_flight _ = false

-- `TERMINAL_STATES.includes(state)` (application/waitForRunTerminal.ts)
abbrev pub is_terminal : JobState → Bool
is_terminal succeeded = true
is_terminal partial = true
is_terminal failed = true
is_terminal cancelled = true
is_terminal _ = false

-- `!!s` for `s : string | undefined`: the empty text counts as absent.
abbrev pub is_present : Option Text → Bool
is_present none = false
is_present (some []) = false
is_present (some (c ∷ cs)) = true

-- `JobState` is a union of its texts.
abbrev pub state_text : JobState → Text
state_text queued = codes "queued"
state_text running = codes "running"
state_text succeeded = codes "succeeded"
state_text partial = codes "partial"
state_text failed = codes "failed"
state_text cancelled = codes "cancelled"
