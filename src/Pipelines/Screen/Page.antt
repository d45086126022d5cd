-- ===== src/Pipelines/Screen/Page.antt =====
-- frontend/src/domains/pipelines/ui/PipelinesScreen.tsx: the state of the page, its handlers and what
-- it shows, in document order. Styles and icons are left out.
mod Forms
mod Offers
mod Tests
use openscale.Base.{
  ℕ, ◌+◌, Text, codes, text_eq, List, [], ◌∷◌, ◌++◌, Option, none, some, Bool, true, false, not,
  ◌||◌, if◌then◌else◌,
}
use openscale.Pipelines.Runs.{JobRun, Params, Status, good, warn, is_queued}
use openscale.Pipelines.RunAll.{RunAllState, idle, running, stopped, done}
use openscale.Pipelines.Screen.{
  StepStatus, completed, queued, run_all_step_status, run_all_label, has_active_runs, running_run,
  reselect,
}
use openscale.Search.Catalogs.{JobParamField, JobDefinition, job_catalog}

pub record PageState : Type 0 where
  pub history_page : ℕ
  pub open_job_type : Option Text
  pub run_all_form_open : Bool
  pub selected_run_id : Option Text

-- `PipelinesNavState`, read once on mount; `none` is a missing field or a missing state.
pub record NavState : Type 0 where
  pub open_job : Option Text
  pub selected_run : Option Text

unfoldable pub mount : NavState → PageState
mount nav = record {
  history_page = 0;
  open_job_type = nav.open_job;
  run_all_form_open = false;
  selected_run_id = nav.selected_run;
}

-- The calls that the handlers make; `from_form` tells which `onSuccess` is passed along.
pub data Request : Type 0 where
  cancel_all : Request
  run_all_jobs : Params → Request
  trigger : Text → Params → Bool → Request
  clear_runs : Request

-- `click_run_all` is the button in the header, `click_job` a job's button that opens its form, and
-- `run_job` one that runs the job at once.
pub data Action : Type 0 where
  stop_all : Action
  click_run_all : Action
  submit_run_all : Params → Action
  jump_to : Text → Action
  click_job : Text → Action
  run_job : Text → Action
  submit_job : Text → Params → Action
  select_run : Text → Action
  change_page : ℕ → Action
  clear_history : Action

abbrev pub is_open : Text → PageState → Bool
is_open job_type s = elim s.open_job_type [ none ↦ false | some t ↦ text_eq t job_type ]

unfoldable pub handle : Action → PageState → PageState × List Request
handle stop_all s = (s, cancel_all ∷ [])
handle click_run_all s =
    (record s { open_job_type = none; run_all_form_open = not s.run_all_form_open }, [])
handle (submit_run_all params) s =
    (record s { run_all_form_open = false }, run_all_jobs params ∷ [])
handle (jump_to id) s = (record s { selected_run_id = some id }, [])
handle (click_job job_type) s = (
  record s {
    run_all_form_open = false;
    open_job_type = if is_open job_type s then none else some job_type;
  },
  [],
)
handle (run_job job_type) s = (s, trigger job_type [] false ∷ [])
handle (submit_job job_type params) s = (s, trigger job_type params true ∷ [])
handle (select_run id) s = (record s { selected_run_id = some id }, [])
handle (change_page page) s = (record s { history_page = page }, [])
handle clear_history s = (s, clear_runs ∷ [])

-- What comes back: a triggered run (its id, and whether a form asked for it), a run that the
-- sequential run or the clear button has started, the cleared history, a list of recent runs.
pub data Event : Type 0 where
  acted : Action → Event
  triggered : Text → Bool → Event
  run_started : Text → Event
  runs_cleared : Event
  runs_loaded : Option (List JobRun) → Event

unfoldable pub page_step : PageState → Event → PageState
unfolding handle
page_step s (acted a) = (handle a s).0
page_step s (triggered id from_form) = record s {
  selected_run_id = some id;
  open_job_type = if from_form then none else s.open_job_type;
}
page_step s (run_started id) = record s { selected_run_id = some id }
page_step s runs_cleared = record s { history_page = 0 }
page_step s (runs_loaded runs) = record s { selected_run_id = reselect runs s.selected_run_id }

unfoldable pub page_steps : PageState → List Event → PageState
page_steps s [] = s
page_steps s (e ∷ es) = page_steps (page_step s e) es

-- What the hooks give: the recent runs, the sequential run, and the pending mutations.
pub record Hooks : Type 0 where
  pub runs : Option (List JobRun)
  pub run_all : RunAllState
  pub is_pending : Bool
  pub cancel_pending : Bool

-- One thing shown. A button has its text, whether it is disabled, and what a click does; a form its
-- fields, whether it is pending, which disables its button, the text of that button, and what a
-- submission does. `clear_data` is `ClearDataButton`, armed and pending or not, which keeps its own
-- state and starts the `reset` job by itself.
pub data Item : Type 0 where
  words : Text → Item
  spinner : Item
  pill : Status → Text → Item
  button : Text → Bool → Action → Item
  form : List JobParamField → Bool → Text → (Params → Action) → Item
  clear_data : Text → Bool → Item

-- `runAll.state.phase === 'running'`
abbrev pub run_all_active : Hooks → Bool
run_all_active h = elim h.run_all [
  | idle ↦ false
  | running i ↦ true
  | stopped i t f ↦ false
  | done ↦ false
]

-- `INGEST_FIELDS`
abbrev pub fields_of : Text → List JobDefinition → List JobParamField
fields_of job_type [] = []
fields_of job_type (job ∷ jobs) =
    if text_eq job.job_type job_type then job.param_fields else fields_of job_type jobs

abbrev pub run_all_words : Bool → Option Text → List Item
run_all_words active none = []
run_all_words true (some label) = spinner ∷ words label ∷ []
run_all_words false (some label) = words label ∷ []

-- The button that stops all runs, given `hasActiveRuns` and `cancelAllRuns.isPending`.
abbrev pub stop_button : Bool → Bool → List Item
stop_button false pending = []
stop_button true pending =
    button (if pending then codes "Stopping…" else codes "Stop all") pending stop_all ∷ []

unfoldable pub header : Hooks → PageState → List Item
header h s =
    words (codes "Job Catalog")
    ∷ words (codes "Five jobs, run individually or as a chain")
    ∷ (run_all_words (run_all_active h) (run_all_label h.run_all)
        ++ (stop_button (has_active_runs h.runs) h.cancel_pending
            ++ button (if s.run_all_form_open then codes "Cancel" else codes "Run all")
                (run_all_active h || h.is_pending) click_run_all
              ∷ []))

unfoldable pub run_all_form : Bool → Bool → List Item
unfolding job_catalog
run_all_form active false = []
run_all_form active true =
    form (fields_of (codes "ingest") job_catalog) active (codes "Run all") submit_run_all ∷ []

-- The control of a row with no static pill: `disabled`, whether the job's form is open, the job, its
-- fields, and `runningRun`.
abbrev pub row_control : Bool → Bool → Text → List JobParamField → Option JobRun → List Item
row_control disabled is_open job_type fields (some run) =
    spinner
    ∷ button (if is_queued run.state then codes "Queued…" else codes "Running…") false
        (jump_to run.id)
    ∷ []
row_control disabled is_open job_type [] none =
    button (codes "Run") disabled (run_job job_type) ∷ []
row_control disabled is_open job_type (f ∷ fs) none =
    button (if is_open then codes "Cancel" else codes "Run") disabled (click_job job_type) ∷ []

abbrev pub row_status : Option StepStatus → List Item → List Item
row_status none control = control
row_status (some completed) control = pill good (codes "Completed") ∷ []
row_status (some queued) control = pill warn (codes "Queued") ∷ []

-- `job.paramFields && !runningRun && openJobType === job.type`
abbrev pub row_form : Bool → Bool → Text → List JobParamField → Option JobRun → List Item
row_form pending is_open job_type fields (some run) = []
row_form pending is_open job_type [] none = []
row_form pending false job_type (f ∷ fs) none = []
row_form pending true job_type (f ∷ fs) none =
    form (f ∷ fs) pending (codes "Start run") (submit_job job_type) ∷ []

unfoldable pub job_row : Hooks → PageState → JobDefinition → List Item
job_row h s job =
    let run = running_run job.job_type h.runs in
    let is_open' = is_open job.job_type s in
    words job.label
    ∷ words job.stage
    ∷ words job.description
    ∷ (row_status (run_all_step_status h.run_all job.job_type) (
          row_control (run_all_active h || h.is_pending) is_open' job.job_type job.param_fields run)
        ++ row_form h.is_pending is_open' job.job_type job.param_fields run)

unfoldable pub job_rows : Hooks → PageState → List JobDefinition → List Item
job_rows h s [] = []
job_rows h s (job ∷ jobs) = job_row h s job ++ job_rows h s jobs

-- `ClearDataButton`'s text, for `confirming` and `isPending`.
abbrev pub clear_data_text : Bool → Bool → Text
clear_data_text confirming true = codes "Clearing data…"
clear_data_text true false = codes "Confirm clear data?"
clear_data_text false false = codes "Clear data (Postgres + MinIO)"

-- The catalog panel, given the state of its `ClearDataButton`.
unfoldable pub catalog_panel : Hooks → PageState → Bool → Bool → List Item
unfolding job_catalog header run_all_form job_rows job_row
catalog_panel h s confirming clear_pending =
    header h s
    ++ (run_all_form (run_all_active h) s.run_all_form_open
        ++ (job_rows h s job_catalog
            ++ clear_data (clear_data_text confirming clear_pending) clear_pending ∷ []))
