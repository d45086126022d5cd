-- ===== src/Pipelines/Screen/Page/Tests.antt =====
-- A page whose form for all stages is open while `gold` runs.
use openscale.Base.{inl, codes, List, [], ◌∷◌, true, false, none, some, ◌≡◌, refl}
use openscale.Pipelines.Runs.{JobRun, JobState}
use openscale.Pipelines.RunAll.{RunAllState, running}
use openscale.Search.Catalogs.{job_catalog}
use openscale.Pipelines.Screen.Page.{
  PageState, run_all_form, run_all_active, fields_of, submit_run_all, form, NavState, mount,
  click_run_all, click_job, Event, acted, triggered, page_step, page_steps, Hooks, catalog_panel,
}
use openscale.Pipelines.Screen.Page.Forms.{
  of_run_all, of_job, open_form, form_steps, IsExclusive, page_steps-Refines,
}
use openscale.Pipelines.Screen.Page.Offers.{OnlyLooks, catalog_panel-OnlyLooks}

abbrev from_search : NavState
from_search = record { open_job = some (codes "ingest"); selected_run = none }

abbrev clicks : List Event
clicks =
    acted click_run_all
    ∷ acted (click_job (codes "ingest"))
    ∷ triggered (codes "r7") true
    ∷ acted click_run_all
    ∷ []

clicks_end : open_form (page_steps (mount from_search) clicks) ≡ of_run_all
unfolding page_steps page_step mount
clicks_end = refl

starts_open : open_form (mount from_search) ≡ of_job (codes "ingest")
unfolding mount
starts_open = refl

page_steps-Refines_example :
    IsExclusive (page_steps (mount from_search) clicks)
    × (open_form (page_steps (mount from_search) clicks)
        ≡ form_steps (open_form (mount from_search)) clicks)
page_steps-Refines_example = page_steps-Refines from_search clicks

abbrev gold_run : JobRun
gold_run = record {
  id = codes "r2";
  job_type = codes "gold";
  params = [];
  state = JobState.running;
  submitted_at = codes "2026-08-11T09:41:02Z";
  started_at = none;
  finished_at = none;
  error = none;
  rows_processed = none;
}

abbrev busy : Hooks
busy = record {
  runs = some (gold_run ∷ []);
  run_all = running 2;
  is_pending = false;
  cancel_pending = true;
}

abbrev idle : Hooks
idle = record busy { run_all = RunAllState.idle; cancel_pending = true }

abbrev form_for_all : PageState
form_for_all = record (mount from_search) { open_job_type = none; run_all_form_open = true }

abbrev triggering : Hooks
triggering = record idle { is_pending = true }

-- While a trigger is on its way, the form for all stages, left open, can still be submitted.
still_submits :
    run_all_form (run_all_active triggering) form_for_all.run_all_form_open
    ≡ form (fields_of (codes "ingest") job_catalog) false (codes "Run all") submit_run_all ∷ []
unfolding run_all_form job_catalog
still_submits = refl

catalog_panel-OnlyLooks_example : OnlyLooks (catalog_panel busy form_for_all true false)
catalog_panel-OnlyLooks_example =
    catalog_panel-OnlyLooks busy form_for_all true false (inl (refl, refl))
