-- ===== src/Home/Screen/Tests.antt =====
-- What the home screen shows of small data.
use openscale.Base.{codes, [], ◌∷◌, none, false, ◌≡◌, ◌≢◌, refl}
use openscale.Base.Decimal.{show}
use openscale.Pipelines.Runs.{JobRun, failed, derive_run_status}
use openscale.Pipelines.Duration.{Clock}
use openscale.Pipelines.RunTable.{Formats}
use openscale.Search.Matching.{trim_start}
use openscale.Appearance.Settings.{split, paired}
use openscale.Charts.Console.{effective_variant}
use openscale.Home.Overview.{Texts, to_run_summary}
use openscale.Home.Screen.{title_case, without_arrow, is_positive, recent_row, chart_data}
use openscale.Home.Screen.Laws.{chart_data-never_split}

titled : title_case (codes "fare model MAE") ≡ codes "Fare Model MAE"
unfolding title_case
titled = refl

stripped : without_arrow (codes "▼ 4.2%") ≡ codes "4.2%"
unfolding without_arrow trim_start
stripped = refl

goes_down : is_positive (codes "▼ 4.2%") ≡ false
unfolding is_positive
goes_down = refl

abbrev clock : Clock
clock = record { get_time = λ t. none; now = 0 }

abbrev texts : Texts
texts = record {
  clock = clock;
  format_run_time = λ iso. [];
  format_count = show;
  format_currency = show;
  fixed_two = show;
  percent_between = λ m n. [];
}

abbrev formats : Formats
formats = record { locale_time = λ t. t; locale_count = show; clock = clock }

abbrev failed_run : JobRun
failed_run = record {
  id = codes "r1";
  job_type = codes "gold";
  params = [];
  state = failed;
  submitted_at = codes "8:00";
  started_at = none;
  finished_at = none;
  error = none;
  rows_processed = none;
}

failed_reads_partial : (recent_row formats (to_run_summary texts failed_run)).pill ≡ codes "partial"
unfolding recent_row to_run_summary derive_run_status
failed_reads_partial = refl

chart_data-never_split_example :
    (effective_variant split (chart_data 0 (82 ∷ 90 ∷ [])) ≢ split)
    × (effective_variant split (chart_data 0 (82 ∷ 90 ∷ [])) ≢ paired)
chart_data-never_split_example = chart_data-never_split split (82 ∷ 90 ∷ [])
