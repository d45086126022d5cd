-- ===== src/DataCatalog/Lineage/Tests.antt =====
-- The stages without a history, and with one failed run.
use openscale.Base.{codes, [], ◌∷◌, none, some, true, false, map, ◌≡◌, refl}
use openscale.Pipelines.Runs.{JobRun, JobState, crit}
use openscale.Search.Catalogs.{job_catalog}
use openscale.DataCatalog.Lineage.{pipeline_lineage, stages_of, latest_run_for, run_status_map}

arrows_between :
    map (λ s. s.has_arrow) (pipeline_lineage none) ≡ true ∷ true ∷ true ∷ true ∷ false ∷ []
unfolding pipeline_lineage stages_of job_catalog
arrows_between = refl

abbrev failed_gold : JobRun
failed_gold = record {
  id = codes "r1";
  job_type = codes "gold";
  params = [];
  state = JobState.failed;
  submitted_at = codes "8:00";
  started_at = none;
  finished_at = none;
  error = none;
  rows_processed = none;
}

only_gold_has_a_badge :
    map (λ s. s.badge) (pipeline_lineage (some (failed_gold ∷ [])))
    ≡ none ∷ none ∷ some (crit, codes "Failed") ∷ none ∷ none ∷ []
unfolding pipeline_lineage stages_of job_catalog latest_run_for run_status_map
only_gold_has_a_badge = refl
