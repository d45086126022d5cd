-- ===== src/DataCatalog/Lineage.antt =====
-- frontend/src/domains/data-catalog/ui/PipelineLineage.tsx: the fixed order of the stages, each with the
-- state of its latest run.
mod Tests
use openscale.Base.{
  Text, codes, text_eq, List, [], ◌∷◌, Option, none, some, Bool, true, false, find,
}
use openscale.Pipelines.Runs.{
  JobRun, JobState, queued, running, succeeded, partial, failed, cancelled, Status, good, warn,
  crit,
}
use openscale.Search.Catalogs.{JobDefinition, job_catalog}

-- `RUN_STATUS_MAP`
unfoldable pub run_status_map : JobState → Status × Text
run_status_map succeeded = (good, codes "Succeeded")
run_status_map partial = (warn, codes "Partial")
run_status_map running = (warn, codes "Running")
run_status_map queued = (warn, codes "Queued")
run_status_map failed = (crit, codes "Failed")
run_status_map cancelled = (crit, codes "Cancelled")

unfoldable pub latest_run_for : Option (List JobRun) → Text → Option JobRun
latest_run_for none job_type = none
latest_run_for (some runs) job_type = find (λ run. text_eq run.job_type job_type) runs

abbrev pub badge_of : Option JobRun → Option (Status × Text)
badge_of none = none
badge_of (some run) = some (run_status_map run.state)

-- A stage: its texts, its badge, and whether an arrow leads to a next one.
pub record Stage : Type 0 where
  pub words : List Text
  pub badge : Option (Status × Text)
  pub has_arrow : Bool

abbrev pub is_not_last : List JobDefinition → Bool
is_not_last [] = false
is_not_last (job ∷ jobs) = true

unfoldable pub stages_of : Option (List JobRun) → List JobDefinition → List Stage
unfolding run_status_map latest_run_for
stages_of runs [] = []
stages_of runs (job ∷ jobs) =
    record {
      words = job.stage ∷ job.label ∷ job.description ∷ [];
      badge = badge_of (latest_run_for runs job.job_type);
      has_arrow = is_not_last jobs;
    }
    ∷ stages_of runs jobs

unfoldable pub pipeline_lineage : Option (List JobRun) → List Stage
unfolding stages_of job_catalog
pipeline_lineage runs = stages_of runs job_catalog
