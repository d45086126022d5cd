-- ===== src/Pipelines/Screen/Page/Offers.antt =====
-- What the catalog panel offers while something runs.
use openscale.Base.{
  ◌⊎◌, inl, inr, Bool-cases, Text, List, [], ◌∷◌, ◌++◌, Option, none, some, Bool, true, false, ◌||◌,
  ◌≡◌, refl, All,
}
use openscale.Pipelines.Runs.{JobRun, Params}
use openscale.Pipelines.Screen.{
  StepStatus, completed, queued, run_all_step_status, running_run, has_active_runs, run_all_label,
}
use openscale.Pipelines.Screen.Page.{
  PageState, Action, stop_all, click_run_all, submit_run_all, jump_to, click_job, run_job,
  submit_job, select_run, change_page, clear_history, Hooks, Item, words, button, form,
  run_all_active, header, run_all_form, run_all_words, stop_button, row_control, row_status,
  row_form, job_row, job_rows, catalog_panel, is_open,
}
use openscale.Search.Catalogs.{JobParamField, JobDefinition, job_catalog}

-- A click that runs a job or opens a form for one.
abbrev pub runs_or_opens : Action → Bool
runs_or_opens click_run_all = true
runs_or_opens (click_job job_type) = true
runs_or_opens (run_job job_type) = true
runs_or_opens (submit_run_all params) = true
runs_or_opens (submit_job job_type params) = true
runs_or_opens stop_all = false
runs_or_opens (jump_to id) = false
runs_or_opens (select_run id) = false
runs_or_opens (change_page page) = false
runs_or_opens clear_history = false

-- What a click on a button that is not disabled does, and a submission of a form whose button is not
-- disabled, with any parameters, neither runs a job nor opens a form.
abbrev pub Looks : Item → Type 0
Looks (button label true action) = Unit
Looks (button label false action) = runs_or_opens action ≡ false
Looks (form fields true text submit) = Unit
Looks (form fields false text submit) = (params : Params) → runs_or_opens (submit params) ≡ false
Looks _ = Unit

pub record OnlyLooks (items : List Item) : Type 0 where
  pub each : All Looks items

All-append : (xs ys : List Item) → All Looks xs → All Looks ys → All Looks (xs ++ ys)
All-append [] ys p q = q
All-append (x ∷ xs) ys p q = (p.0, All-append xs ys p.1 q)

OnlyLooks-append : {xs ys : List Item} → OnlyLooks xs → OnlyLooks ys → OnlyLooks (xs ++ ys)
OnlyLooks-append {xs} {ys} p q = record { each = All-append xs ys p.each q.each }

after_two :
    {t u : Text} {items : List Item} → OnlyLooks items → OnlyLooks (words t ∷ words u ∷ items)
after_two p = record { each = (tt, (tt, p.each)) }

after_words :
    {t u v : Text} {items : List Item}
    → OnlyLooks items
    → OnlyLooks (words t ∷ words u ∷ words v ∷ items)
after_words p = record { each = (tt, (tt, (tt, p.each))) }

run_all_words-OnlyLooks :
    (active : Bool) (label : Option Text) → OnlyLooks (run_all_words active label)
run_all_words-OnlyLooks active none = record { each = tt }
run_all_words-OnlyLooks true (some label) = record { each = (tt, (tt, tt)) }
run_all_words-OnlyLooks false (some label) = record { each = (tt, tt) }

stop_button-OnlyLooks : (active pending : Bool) → OnlyLooks (stop_button active pending)
stop_button-OnlyLooks false pending = record { each = tt }
stop_button-OnlyLooks true true = record { each = (tt, tt) }
stop_button-OnlyLooks true false = record { each = (refl, tt) }

-- A row's control looks only if it is disabled, or if the job has a run in flight.
abbrev AtRest : Bool → Option JobRun → Type 0
AtRest disabled none = disabled ≡ true
AtRest disabled (some run) = Unit

row_control-OnlyLooks :
    (disabled is_open : Bool) (t : Text) (fields : List JobParamField) (run : Option JobRun)
    → AtRest disabled run
    → OnlyLooks (row_control disabled is_open t fields run)
row_control-OnlyLooks disabled is_open t fields (some run) r = record { each = (tt, (refl, tt)) }
row_control-OnlyLooks disabled is_open t [] none r = rw r (record { each = (tt, tt) })
row_control-OnlyLooks disabled is_open t (f ∷ fs) none r = rw r (record { each = (tt, tt) })

row_status-OnlyLooks :
    (status : Option StepStatus) (control : List Item)
    → OnlyLooks control
    → OnlyLooks (row_status status control)
row_status-OnlyLooks none control p = p
row_status-OnlyLooks (some completed) control p = record { each = (tt, tt) }
row_status-OnlyLooks (some queued) control p = record { each = (tt, tt) }

-- A job's form is pending, closed, or not shown because the job has a run in flight.
abbrev FormRests : Bool → Bool → Option JobRun → Type 0
FormRests pending is_open none = (pending ≡ true) ⊎ (is_open ≡ false)
FormRests pending is_open (some run) = Unit

row_form-OnlyLooks :
    (pending is_open : Bool) (t : Text) (fields : List JobParamField) (run : Option JobRun)
    → FormRests pending is_open run
    → OnlyLooks (row_form pending is_open t fields run)
row_form-OnlyLooks pending is_open t fields (some run) r = record { each = tt }
row_form-OnlyLooks pending is_open t [] none r = record { each = tt }
row_form-OnlyLooks pending false t (f ∷ fs) none r = record { each = tt }
row_form-OnlyLooks pending true t (f ∷ fs) none (inl e) = rw e (record { each = (tt, tt) })
row_form-OnlyLooks pending true t (f ∷ fs) none (inr e) = cc

FormRests-any :
    (pending is_open : Bool) (run : Option JobRun)
    → (pending ≡ true) ⊎ (is_open ≡ false)
    → FormRests pending is_open run
FormRests-any pending is_open none e = e
FormRests-any pending is_open (some run) e = tt

AtRest-disabled : (disabled : Bool) (run : Option JobRun) → disabled ≡ true → AtRest disabled run
AtRest-disabled disabled none e = e
AtRest-disabled disabled (some run) e = tt

none_open : (s : PageState) (t : Text) → s.open_job_type ≡ none → is_open t s ≡ false
none_open s t e = rw e refl

run_all_form-OnlyLooks :
    (active open' : Bool)
    → (active ≡ true) ⊎ (open' ≡ false)
    → OnlyLooks (run_all_form active open')
unfolding run_all_form
run_all_form-OnlyLooks active false r = record { each = tt }
run_all_form-OnlyLooks active true (inl e) = rw e (record { each = (tt, tt) })
run_all_form-OnlyLooks active true (inr e) = cc

-- All stages run, and no job's form is open; or a trigger of the page is on its way, and the form for
-- all stages is closed.
abbrev pub IsBusy : Hooks → PageState → Type 0
IsBusy h s =
    ((run_all_active h ≡ true) × (s.open_job_type ≡ none))
    ⊎ ((h.is_pending ≡ true) × (s.run_all_form_open ≡ false))

module _ (h : Hooks) (s : PageState) where
  job_row-OnlyLooks :
      (job : JobDefinition)
      → AtRest (run_all_active h || h.is_pending) (running_run job.job_type h.runs)
      → FormRests h.is_pending (is_open job.job_type s) (running_run job.job_type h.runs)
      → OnlyLooks (job_row h s job)
  unfolding job_row
  job_row-OnlyLooks job rest forms =
      let run = running_run job.job_type h.runs in
      let control =
        row_control-OnlyLooks (run_all_active h || h.is_pending) (is_open job.job_type s)
          job.job_type job.param_fields run rest in
      after_words (
        OnlyLooks-append
          (row_status-OnlyLooks (run_all_step_status h.run_all job.job_type) _ control)
          (row_form-OnlyLooks h.is_pending (is_open job.job_type s) job.job_type job.param_fields
            run forms))

  disabled_by : IsBusy h s → (run_all_active h || h.is_pending) ≡ true
  disabled_by (inl (active, e)) = rw active refl
  disabled_by (inr (pending, e)) = elim (Bool-cases (run_all_active h)) [
    | inl a ↦ rw a refl
    | inr a ↦ rw a pending
  ]

  form_rests : (t : Text) → IsBusy h s → (h.is_pending ≡ true) ⊎ (is_open t s ≡ false)
  form_rests t (inl (active, e)) = inr (none_open s t e)
  form_rests t (inr (pending, e)) = inl pending

  all_form_rests : IsBusy h s → (run_all_active h ≡ true) ⊎ (s.run_all_form_open ≡ false)
  all_form_rests (inl (active, e)) = inl active
  all_form_rests (inr (pending, e)) = inr e

  job_rows-OnlyLooks : (jobs : List JobDefinition) → IsBusy h s → OnlyLooks (job_rows h s jobs)
  unfolding job_rows
  job_rows-OnlyLooks [] busy = record { each = tt }
  job_rows-OnlyLooks (job ∷ jobs) busy =
      OnlyLooks-append
        (job_row-OnlyLooks job (AtRest-disabled _ _ (disabled_by busy))
          (FormRests-any _ _ _ (form_rests job.job_type busy)))
        (job_rows-OnlyLooks jobs busy)

  header-OnlyLooks : (run_all_active h || h.is_pending) ≡ true → OnlyLooks (header h s)
  unfolding header
  header-OnlyLooks busy = rw busy (
      after_two (
        OnlyLooks-append (run_all_words-OnlyLooks (run_all_active h) (run_all_label h.run_all)) (
          OnlyLooks-append (stop_button-OnlyLooks (has_active_runs h.runs) h.cancel_pending)
            (record { each = (tt, tt) }))))

  -- While all stages run and no job's form is open, or while a trigger of the page is on its way and
  -- the form for all stages is closed, nothing in the catalog panel that can be clicked or submitted
  -- runs a job or opens a form, whatever runs are known; the button that clears the data is left out
  -- of account, since it starts its `reset` job whatever else runs.
  pub catalog_panel-OnlyLooks :
      (confirming clear_pending : Bool)
      → IsBusy h s
      → OnlyLooks (catalog_panel h s confirming clear_pending)
  unfolding catalog_panel
  catalog_panel-OnlyLooks confirming clear_pending busy =
      OnlyLooks-append (header-OnlyLooks (disabled_by busy)) (
        OnlyLooks-append
          (run_all_form-OnlyLooks (run_all_active h) s.run_all_form_open (all_form_rests busy))
          (OnlyLooks-append (job_rows-OnlyLooks job_catalog busy) (record { each = (tt, tt) })))

  -- The row of a job that has a run in flight offers nothing that runs a job or opens a form.
  pub job_row-in_flight :
      (job : JobDefinition) (run : JobRun)
      → running_run job.job_type h.runs ≡ some run
      → OnlyLooks (job_row h s job)
  job_row-in_flight job run e = job_row-OnlyLooks job (rw e tt) (rw e tt)
