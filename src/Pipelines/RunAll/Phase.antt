-- ===== src/Pipelines/RunAll/Phase.antt =====
-- In which phase the sequential run ends, and what that phase tells.
use openscale.Base.{
  ℕ, suc, ◌≢◌, ◌⊎◌, ◌+◌, ◌<◌, Text, List, [], ◌∷◌, some, true, false, ◌≡◌, refl, ap, ◌∙◌, inl, inr,
  arith, length, get_elem?, Bool-cases,
}
use native.Mathlib.Decide.{dec_lt}
use openscale.Pipelines.Runs.{JobState, queued, succeeded, partial, failed, cancelled, Params}
use openscale.Pipelines.RunAll.Trace.{last_state}
use openscale.Pipelines.RunAll.{
  pipeline_order, RunAllState, idle, running, stopped, done, Outcome, trigger_rejected,
  wait_rejected, finished, Effect, stops, after_step, run_steps, run_all,
}

-- The step finished in a state that lets the chain go on.
abbrev pub Passes : Outcome → Type 0
Passes trigger_rejected = ⊥
Passes (wait_rejected id) = ⊥
Passes (finished id s) = (s ≢ failed) × (s ≢ cancelled)

-- One of the two awaited calls of the step was rejected.
abbrev pub Throws : Outcome → Type 0
Throws trigger_rejected = Unit
Throws (wait_rejected id) = Unit
Throws (finished id s) = ⊥

-- What a phase says of the outcomes, when it is the last one set.
abbrev pub Explains : (ℕ → Outcome) → RunAllState → Type 0
Explains outcome idle = ⊥
Explains outcome (running i) = ((j : ℕ) → j < i → Passes (outcome j)) × Throws (outcome i)
Explains outcome (stopped i job_type s) =
    ((j : ℕ) → j < i → Passes (outcome j))
    × (get_elem? pipeline_order i ≡ some job_type)
    × ((s ≡ failed) ⊎ (s ≡ cancelled))
    × ((id : Text) × (outcome i ≡ finished id s))
Explains outcome done = (j : ℕ) → j < 5 → Passes (outcome j)

stops-cases : (s : JobState) → stops s ≡ true → (s ≡ failed) ⊎ (s ≡ cancelled)
stops-cases queued h = cc
stops-cases JobState.running h = cc
stops-cases succeeded h = cc
stops-cases partial h = cc
stops-cases failed h = inl refl
stops-cases cancelled h = inr refl

not_stops-cases : (s : JobState) → stops s ≡ false → (s ≢ failed) × (s ≢ cancelled)
not_stops-cases s h = (λ e. ground arith, λ e. ground arith)

module _ (range : Params) (outcome : ℕ → Outcome) where
  module _ (i : ℕ) (before : (j : ℕ) → j < i → Passes (outcome j)) where
    Passes-extend : Passes (outcome i) → (j : ℕ) → j < i + 1 → Passes (outcome j)
    Passes-extend p j h = elim (dec_lt j i) [
      | yes earlier ↦ before j earlier
      | no late ↦ let same : i ≡ j = omega arith in rw (← same) p
    ]

  Explains-after_step :
      (i : ℕ) (job_type : Text) (o : Outcome) (later : List Effect)
      → ((j : ℕ) → j < i → Passes (outcome j))
      → get_elem? pipeline_order i ≡ some job_type
      → outcome i ≡ o
      → (Passes o → Explains outcome (last_state (running i) later))
      → Explains outcome (last_state (running i) (after_step i job_type o later))
  Explains-after_step i job_type trigger_rejected later before at e h = (before, rw e tt)
  Explains-after_step i job_type (wait_rejected id) later before at e h = (before, rw e tt)
  Explains-after_step i job_type (finished id s) later before at e h = elim (Bool-cases (stops s)) [
    | inl stop ↦ rw stop (before, at, stops-cases s stop, (id, e))
    | inr pass ↦ rw pass (h (not_stops-cases s pass))
  ]

  Explains-run_steps :
      (i : ℕ) (job_types : List Text) (s : RunAllState)
      → ((j : ℕ) → j < i → Passes (outcome j))
      → i + length job_types ≡ 5
      → ((k : ℕ) → get_elem? pipeline_order (i + k) ≡ get_elem? job_types k)
      → Explains outcome (last_state s (run_steps range outcome i job_types))
  unfolding run_steps
  Explains-run_steps i [] s before total at = λ j h. before j (omega arith)
  Explains-run_steps i (job_type ∷ job_types) s before total at =
      Explains-after_step i job_type (outcome i) _ before
        (ap (get_elem? pipeline_order) {x = i} {y = i + 0} (omega arith) ∙ at 0) refl
        (λ pass.
          Explains-run_steps (i + 1) job_types (running i) (Passes-extend i before pass)
            (omega arith)
            (λ k.
              ap (get_elem? pipeline_order) {x = i + 1 + k} {y = i + suc k} (omega arith)
              ∙ at (suc k)))

-- The phase shown last tells what happened: `done` exactly when all five steps passed; `stopped`
-- at the first step that failed or was cancelled, with its job type and state; and a rejected
-- call leaves `running` at its step. It never stays `idle`.
pub run_all-Explains :
    (range : Params) (outcome : ℕ → Outcome)
    → Explains outcome (last_state idle (run_all range outcome))
unfolding run_all
run_all-Explains range outcome =
    Explains-run_steps range outcome 0 pipeline_order idle (λ j h. absurd (omega arith)) refl
      (λ k. ap (get_elem? pipeline_order) (omega arith))
