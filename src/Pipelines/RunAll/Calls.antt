-- ===== src/Pipelines/RunAll/Calls.antt =====
-- Which jobs the sequential run triggers, with which parameters.
use openscale.Base.{
  ℕ, suc, ◌+◌, ◌-◌, ◌≤◌, Text, List, [], ◌∷◌, ◌≡◌, refl, ap, sym, ◌∙◌, inl, inr, arith, length,
  take, take-nil, Bool-cases, codes, map,
}
use openscale.Pipelines.Runs.{Params}
use openscale.Pipelines.RunAll.Trace.{calls, last_state, reached}
use openscale.Pipelines.RunAll.{
  pipeline_order, RunAllState, idle, running, Outcome, trigger_rejected, wait_rejected, finished,
  Effect, stops, params_for, after_step, run_steps, run_all,
}

-- The calls of a run in which every step passes: the date range goes to `ingest` alone.
abbrev pub all_calls : Params → List (Text × Params)
all_calls range =
    (codes "ingest", range)
    ∷ (codes "silver", [])
    ∷ (codes "gold", [])
    ∷ (codes "features", [])
    ∷ (codes "train", [])
    ∷ []

module _ {ℓ} {A : Type ℓ} where
  take-sub_suc :
      (n i : ℕ) (x : A) (xs : List A) → suc i ≤ n → take (n - i) (x ∷ xs) ≡ x ∷ take (n - suc i) xs
  take-sub_suc n i x xs h =
      ap (λ k. take k (x ∷ xs)) {x = n - i} {y = suc (n - suc i)} (omega arith)

  take-sub_self : (i : ℕ) (xs : List A) → [] ≡ take (i - i) xs
  take-sub_self i xs = ap (λ k. take k xs) {x = 0} {y = i - i} (omega arith)

module _ (range : Params) (outcome : ℕ → Outcome) where
  abbrev stage_calls : List Text → List (Text × Params)
  stage_calls job_types = map (λ job_type. (job_type, params_for job_type range)) job_types

  reached-after_step :
      (i : ℕ) (job_type : Text) (o : Outcome) (later : List Effect)
      → suc i ≤ reached (last_state (running i) later)
      → suc i ≤ reached (last_state (running i) (after_step i job_type o later))
  reached-after_step i job_type trigger_rejected later h = omega arith
  reached-after_step i job_type (wait_rejected id) later h = omega arith
  reached-after_step i job_type (finished id s) later h = ground arith

  reached-run_steps :
      (i : ℕ) (job_types : List Text) (s : RunAllState)
      → i + length job_types ≡ 5
      → i ≤ reached (last_state s (run_steps range outcome i job_types))
  unfolding run_steps
  reached-run_steps i [] s total = omega arith
  reached-run_steps i (job_type ∷ job_types) s total =
      let later : suc i
          ≤ reached (last_state (running i) (run_steps range outcome (i + 1) job_types)) =
        omega (arith, reached-run_steps (i + 1) job_types (running i) (omega arith)) in
      let here =
        reached-after_step i job_type (outcome i) (run_steps range outcome (i + 1) job_types)
          later in
      omega (arith, here)

  calls-after_step :
      (i : ℕ) (job_type : Text) (o : Outcome) (later : List Effect) (rest : List (Text × Params))
      → suc i ≤ reached (last_state (running i) later)
      → calls later ≡ take (reached (last_state (running i) later) - suc i) rest
      → calls (after_step i job_type o later)
        ≡ take (reached (last_state (running i) (after_step i job_type o later)) - suc i) rest
  calls-after_step i job_type trigger_rejected later rest h e = take-sub_self (suc i) rest
  calls-after_step i job_type (wait_rejected id) later rest h e = take-sub_self (suc i) rest
  calls-after_step i job_type (finished id s) later rest h e = elim (Bool-cases (stops s)) [
    | inl stop ↦ rw stop (take-sub_self (suc i) rest)
    | inr pass ↦ rw pass e
  ]

  calls-run_steps :
      (i : ℕ) (job_types : List Text) (s : RunAllState)
      → i + length job_types ≡ 5
      → calls (run_steps range outcome i job_types)
        ≡ take
            (reached (last_state s (run_steps range outcome i job_types)) - i)
            (stage_calls job_types)
  unfolding run_steps
  calls-run_steps i [] s total = sym (take-nil (5 - i))
  calls-run_steps i (job_type ∷ job_types) s total =
      let later = run_steps range outcome (i + 1) job_types in
      let begun : suc i ≤ reached (last_state (running i) later) =
        omega (arith, reached-run_steps (i + 1) job_types (running i) (omega arith)) in
      let ih =
        calls-run_steps (i + 1) job_types (running i) (omega arith)
        ∙ ap (λ k. take (reached (last_state (running i) later) - k) (stage_calls job_types))
            {x = i + 1} {y = suc i} (omega arith) in
      ap (◌∷◌ (job_type, params_for job_type range))
        (calls-after_step i job_type (outcome i) later (stage_calls job_types) begun ih)
      ∙ sym (
          take-sub_suc _ i (job_type, params_for job_type range) (stage_calls job_types)
            (reached-after_step i job_type (outcome i) later begun))

-- The calls made are the first so many of the five in dependency order, as many as the phase shown
-- last says: no stage is skipped, repeated or triggered after a stop, and the date range goes to
-- `ingest` alone.
pub calls-run_all :
    (range : Params) (outcome : ℕ → Outcome)
    → calls (run_all range outcome)
      ≡ take (reached (last_state idle (run_all range outcome))) (all_calls range)
unfolding run_all
calls-run_all range outcome =
    calls-run_steps range outcome 0 pipeline_order idle refl
    ∙ ap (λ k. take k (all_calls range)) (omega arith)
