-- ===== src/Pipelines/Screen/Page/Forms.antt =====
-- The forms of the pipelines screen as one: which form is open, if any.
use openscale.Base.{
  Text, text_eq, List, [], ◌∷◌, none, some, true, ◌≡◌, refl, ap, ◌∙◌, if◌then◌else◌, arith,
}
use openscale.Pipelines.Screen.Page.{
  PageState, NavState, mount, stop_all, click_run_all, submit_run_all, jump_to, click_job, run_job,
  submit_job, select_run, change_page, clear_history, Event, acted, triggered, run_started,
  runs_cleared, runs_loaded, page_step, page_steps,
}

-- The form that is open.
pub data OpenForm : Type 0 where
  closed : OpenForm
  of_run_all : OpenForm
  of_job : Text → OpenForm

-- One form at a time: a click on its button opens it in place of another one or closes it.
pub click_form_of_run_all : OpenForm → OpenForm
click_form_of_run_all of_run_all = closed
click_form_of_run_all closed = of_run_all
click_form_of_run_all (of_job t) = of_run_all

pub click_form_of_job : Text → OpenForm → OpenForm
click_form_of_job job_type closed = of_job job_type
click_form_of_job job_type of_run_all = of_job job_type
click_form_of_job job_type (of_job t) = if text_eq t job_type then closed else of_job job_type

pub form_step : OpenForm → Event → OpenForm
unfolding click_form_of_run_all click_form_of_job
form_step f (acted click_run_all) = click_form_of_run_all f
form_step f (acted (click_job job_type)) = click_form_of_job job_type f
form_step f (acted (submit_run_all params)) = elim f [
  | of_run_all ↦ closed
  | closed ↦ closed
  | of_job t ↦ of_job t
]
form_step f (triggered id true) = elim f [
  | of_run_all ↦ of_run_all
  | closed ↦ closed
  | of_job t ↦ closed
]
form_step f e = f

pub form_steps : OpenForm → List Event → OpenForm
form_steps f [] = f
form_steps f (e ∷ es) = form_steps (form_step f e) es

-- Both states of the page that stand for a form being open, read as one form.
abbrev pub open_form : PageState → OpenForm
open_form s =
    if s.run_all_form_open
    then of_run_all
    else elim s.open_job_type [ none ↦ closed | some t ↦ of_job t ]

-- Never two forms at once.
abbrev pub IsExclusive : PageState → Type 0
IsExclusive s = s.run_all_form_open ≡ true → s.open_job_type ≡ none

pub page_step-Refines :
    (s : PageState) (e : Event)
    → IsExclusive s
    → IsExclusive (page_step s e) × (open_form (page_step s e) ≡ form_step (open_form s) e)
unfolding page_step form_step
page_step-Refines s (acted click_run_all) h = ground arith
page_step-Refines s (acted (click_job job_type)) h = ground arith
page_step-Refines s (acted (submit_run_all params)) h = ground arith
page_step-Refines s (acted stop_all) h = (h, refl)
page_step-Refines s (acted (jump_to id)) h = (h, refl)
page_step-Refines s (acted (run_job job_type)) h = (h, refl)
page_step-Refines s (acted (submit_job job_type params)) h = (h, refl)
page_step-Refines s (acted (select_run id)) h = (h, refl)
page_step-Refines s (acted (change_page page)) h = (h, refl)
page_step-Refines s (acted clear_history) h = (h, refl)
page_step-Refines s (triggered id from_form) h = ground arith
page_step-Refines s (run_started id) h = (h, refl)
page_step-Refines s runs_cleared h = (h, refl)
page_step-Refines s (runs_loaded runs) h = (h, refl)

steps :
    (s : PageState) (es : List Event)
    → IsExclusive s
    → IsExclusive (page_steps s es) × (open_form (page_steps s es) ≡ form_steps (open_form s) es)
unfolding page_steps form_steps
steps s [] h = (h, refl)
steps s (e ∷ es) h =
    let now = page_step-Refines s e h in
    let rest = steps (page_step s e) es now.0 in (rest.0, rest.1 ∙ ap (λ f. form_steps f es) now.1)

-- On whatever the user clicks and the calls answer, in whatever order, the page's two fields act as
-- one open form: both are never set at once, and the form that they show after any events is the one
-- that the rule `one form at a time` gives, from the form that the navigation asked for.
pub page_steps-Refines :
    (nav : NavState) (es : List Event)
    → IsExclusive (page_steps (mount nav) es)
      × (open_form (page_steps (mount nav) es) ≡ form_steps (open_form (mount nav)) es)
unfolding mount
page_steps-Refines nav es = steps (mount nav) es (λ h. cc)
