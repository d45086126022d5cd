-- ===== src/Charts/Dashboard/Tests.antt =====
-- A job with two outcomes, and the screen before and without data.
use openscale.Base.{ℕ, ◌+◌, ◌++◌, codes, [], ◌∷◌, none, some, true, false, ◌≡◌, refl}
use openscale.Base.Decimal.{show}
use openscale.Pipelines.Duration.{duration_label}
use openscale.Charts.Dashboard.Entities.{JobTypeHealth, DashboardsOverview}
use openscale.Charts.Dashboard.Health.{etl_segments, etl_texts}
use openscale.Charts.Dashboard.Screen.{
  Formats, failed, no_gold_data, words, quality_content, dashboards_screen,
}

abbrev silver : JobTypeHealth
silver = record {
  job_type = codes "silver";
  succeeded = 3;
  partial = 0;
  failed = 1;
  avg_duration_seconds = some 75;
}

texts : etl_texts silver ≡ codes "silver" ∷ codes "1m 15s avg" ∷ codes "3✓ 0~ 1✗" ∷ []
unfolding etl_texts show duration_label
texts = refl

segments :
    etl_segments silver
    ≡ record { width = record { num = 300; den = 4 }; color = codes "var(--success)" }
      ∷ record { width = record { num = 100; den = 4 }; color = codes "var(--danger)" }
      ∷ []
unfolding etl_segments
segments = refl

abbrev plain : Formats ℕ
plain = record {
  zero = 0;
  plus = λ a b. a + b;
  of_count = λ n. n;
  currency = λ v. elim v [ none ↦ codes "—" | some n ↦ codes "$" ++ show n ];
  count = λ v. elim v [ none ↦ codes "—" | some n ↦ show n ];
  percent = λ v. elim v [ none ↦ codes "—" | some n ↦ show n ++ codes "%" ];
  fixed = λ d n. show n;
  short_date = λ t. t;
  finished_date = λ t. t;
}

abbrev empty : DashboardsOverview ℕ
empty = record {
  daily_revenue = [];
  hourly_demand = [];
  top_zones = [];
  congestion = [];
  model_metrics = [];
  etl_health = [];
}

nothing_yet : dashboards_screen plain false false (some empty) ≡ no_gold_data
unfolding dashboards_screen
nothing_yet = refl

error_first : dashboards_screen plain true true (some empty) ≡ failed
unfolding dashboards_screen
error_first = refl

-- Without any training the panel speaks of one.
no_training_said_to_be_one :
    quality_content plain [] none
    ≡ words (
        codes "Only one completed train run so far."
        ∷ codes "MAE $ · RMSE $ -- retrain again to see a trend."
        ∷ [])
      ∷ []
no_training_said_to_be_one = refl
