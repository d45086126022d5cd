-- ===== src/Pipelines/RunTable.antt =====
-- frontend/src/domains/pipelines/ui/JobRunsTable.tsx: the pager of the run history and the rows of a
-- page; ui/JobRunLogPanel.tsx; `formatRunTime` and `formatRunRows` of domain/rules.ts.
mod Laws
mod Tests
use openscale.Base.{
  ℕ, ◌+◌, ◌-◌, ◌==◌, Text, codes, text_eq, List, [], ◌∷◌, ◌++◌, map, Option, none, some, Bool, true,
  false, not, if◌then◌else◌,
}
use openscale.Base.Decimal.{show}
use openscale.Pipelines.Runs.{
  JobRun, JobState, Status, derive_run_status, state_label, is_in_flight, is_present,
}
use openscale.Pipelines.Duration.{Clock, dash, format_run_duration}
use openscale.Pipelines.Events.{JobRunEventsState}
use openscale.Pipelines.RunList.{RunsPage, Select, fetch_page}

-- The two buttons over the table.
pub data Turn : Type 0 where
  previous next : Turn

abbrev pub is_disabled : ℕ → Bool → Turn → Bool
is_disabled page has_more previous = page == 0
is_disabled page has_more next = not has_more

-- `onPageChange`
abbrev pub page_after : ℕ → Turn → ℕ
page_after page previous = page - 1
page_after page next = page + 1

-- A click, on a page that shows what `fetchPage` gave for it; a disabled button ignores it.
unfoldable pub turn_page : Select → ℕ → Turn → ℕ
turn_page select page t =
    if is_disabled page (fetch_page select page).has_more t then page else page_after page t

unfoldable pub turn_pages : Select → ℕ → List Turn → ℕ
turn_pages select page [] = page
turn_pages select page (t ∷ ts) = turn_pages select (turn_page select page t) ts

abbrev pub unfinished_text : JobState → Text
unfinished_text JobState.running = codes "(running)"
unfinished_text JobState.queued = codes "(queued)"
unfinished_text _ = dash

-- `locale_time` is `new Date(iso).toLocaleTimeString()`; an empty text counts as missing.
unfoldable pub format_ended : (Text → Text) → Option Text → JobState → Text
format_ended locale_time none state = unfinished_text state
format_ended locale_time (some []) state = unfinished_text state
format_ended locale_time (some (c ∷ cs)) state = locale_time (c ∷ cs)

-- `new Date(iso).toLocaleTimeString()`, `n.toLocaleString()`, and the clock of the durations.
pub record Formats : Type 0 where
  pub locale_time : Text → Text
  pub locale_count : ℕ → Text
  pub clock : Clock

-- A row: whether it is selected, what a click on it selects, its texts, and its status.
pub record Row : Type 0 where
  pub is_selected : Bool
  pub selects : Text
  pub words : List Text
  pub status : Status
  pub status_label : Text
  pub rows : Text

module _ (formats : Formats) where
  -- An empty text counts as missing.
  unfoldable pub format_run_time : Option Text → Text
  format_run_time none = dash
  format_run_time (some []) = dash
  format_run_time (some (c ∷ cs)) = formats.locale_time (c ∷ cs)

  unfoldable pub format_run_rows : Option ℕ → Text
  format_run_rows none = dash
  format_run_rows (some n) = formats.locale_count n

  abbrev pub is_selected_id : Option Text → Text → Bool
  is_selected_id none id = false
  is_selected_id (some selected) id = text_eq id selected

  unfoldable pub run_row : Option Text → JobRun → Row
  unfolding format_run_time format_run_rows
  run_row selected run = record {
    is_selected = is_selected_id selected run.id;
    selects = run.id;
    words =
        run.job_type
        ∷ format_run_time (some run.submitted_at)
        ∷ format_run_time run.started_at
        ∷ format_ended formats.locale_time run.finished_at run.state
        ∷ format_run_duration formats.clock run.started_at run.finished_at run.state
        ∷ [];
    status = derive_run_status run.state;
    status_label = state_label run.state;
    rows = format_run_rows run.rows_processed;
  }

  -- The line under the heading, the note if there are no runs, and the rows.
  unfoldable pub job_runs_table : ℕ → Option Text → List JobRun → Text × Option Text × List Row
  job_runs_table page selected [] =
      (codes "Page " ++ show (page + 1), some (codes "No runs yet."), [])
  job_runs_table page selected (run ∷ runs) =
      (codes "Page " ++ show (page + 1), none, map (run_row selected) (run ∷ runs))

-- The log of the selected run: its heading, with a spinner while it is live, its pill, and its lines,
-- or a note in their place.
pub record LogView : Type 0 where
  pub is_live : Bool
  pub heading : Text
  pub pill : Option (Status × Text)
  pub lines : List Text

abbrev pub is_live_state : Option JobState → Bool
is_live_state none = false
is_live_state (some state) = is_in_flight state

abbrev pub pill_of : Option JobState → Option (Status × Text)
pill_of none = none
pill_of (some state) = some (derive_run_status state, state_label state)

abbrev pub lines_or_note : List Text → List Text
lines_or_note [] = codes "Waiting for output…" ∷ []
lines_or_note (l ∷ ls) = l ∷ ls

unfoldable pub job_run_log_panel : JobRunEventsState → LogView
job_run_log_panel events = record {
  is_live = is_live_state events.state;
  heading = if is_live_state events.state then codes "Live run" else codes "Run log";
  pill = pill_of events.state;
  lines = lines_or_note events.log_lines;
}
