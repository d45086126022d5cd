-- ===== src/Charts/Dashboard/Screen.antt =====
-- The panels of frontend/src/domains/dashboards/ui/DashboardsScreen.tsx.
use openscale.Base.{
  ℕ, Text, codes, List, [], ◌∷◌, ◌++◌, Option, none, some, Bool, true, false, ◌||◌, ltb, map,
  length, if◌then◌else◌,
}
use openscale.Base.Decimal.{show}
use openscale.Charts.Labels.{format_hour_label}
use openscale.Charts.Dashboard.Entities.{
  DailyRevenuePoint, HourlyDemandPoint, CongestionPoint, ModelMetricPoint, DashboardsOverview,
}
use openscale.Charts.Dashboard.Health.{Segment, etl_segments, etl_texts}
use openscale.Home.Gauges.{GaugeColor, accent, good, warn, crit}

abbrev pub last {ℓ} : {A : Type ℓ} → List A → Option A
last [] = none
last (x ∷ []) = some x
last (x ∷ y ∷ ys) = last (y ∷ ys)

abbrev pub first {ℓ} : {A : Type ℓ} → List A → Option A
first [] = none
first (x ∷ xs) = some x

-- `xs[i]?.field` for a field that may be missing.
abbrev pub field_of {ℓ κ} : {A : Type ℓ} {B : Type κ} → (A → Option B) → Option A → Option B
field_of f none = none
field_of f (some x) = f x

-- The numbers and the formats of domain/rules.ts and of the platform. `fixed n x` is
-- `x.toFixed(n)`, `short_date` is `formatShortDate`, `finished_date` the date of a training.
pub record Formats (Number : Type 0) : Type 0 where
  pub zero : Number
  pub plus : Number → Number → Number
  pub of_count : ℕ → Number
  pub currency : Option Number → Text
  pub count : Option Number → Text
  pub percent : Option Number → Text
  pub fixed : ℕ → Number → Text
  pub short_date : Text → Text
  pub finished_date : Text → Text

pub record Point (Number : Type 0) : Type 0 where
  pub label : Text
  pub value : Number

-- How a chart writes its values: by one of the rules, or as an error with two decimals.
pub data ValueFormat : Type 0 where
  by_currency by_count by_percent by_mae : ValueFormat

pub data Content (Number : Type 0) : Type 0 where
  trend_chart : GaugeColor → List (Point Number) → ValueFormat → Content Number
  bar_chart : GaugeColor → List (Point Number) → ValueFormat → ℕ → Content Number
  horizontal_bar_chart : List (Point Number) → ValueFormat → Content Number
  words : List Text → Content Number
  etl_rows : List (List Text × List Segment) → Content Number

pub record ChartPanel (Number : Type 0) : Type 0 where
  pub title : Text
  pub value : Option Text
  pub content : List (Content Number)

pub data Screen (Number : Type 0) : Type 0 where
  failed loading no_gold_data : Screen Number
  panels : List (ChartPanel Number) → Screen Number

module _ {Number : Type 0} (f : Formats Number) where
  abbrev pub or_zero : Option Number → Number
  or_zero none = f.zero
  or_zero (some x) = x

  -- `sum`, from the left.
  unfoldable pub sum_from : Number → List (Option Number) → Number
  sum_from total [] = total
  sum_from total (v ∷ vs) = sum_from (f.plus total (or_zero v)) vs

  abbrev pub sum : List (Option Number) → Number
  sum = sum_from f.zero

  abbrev pub trend :
      Text → Text → GaugeColor → List (Point Number) → ValueFormat → ChartPanel Number
  trend title value color points format = record {
    title = title;
    value = some value;
    content = trend_chart color points format ∷ [];
  }

  abbrev pub revenue_panels : List (DailyRevenuePoint Number) → List (ChartPanel Number)
  revenue_panels days =
      trend (codes "Daily revenue") (f.currency (some (sum (map (λ d. d.total_revenue) days)))) good
        (map (λ d. record { label = f.short_date d.date; value = or_zero d.total_revenue }) days)
        by_currency
      ∷ trend (codes "Daily trip volume")
          (f.count (some (sum (map (λ d. some (f.of_count d.trip_count)) days)))) accent
          (map (λ d. record { label = f.short_date d.date; value = f.of_count d.trip_count }) days)
          by_count
      ∷ trend (codes "Avg fare trend") (f.currency (field_of (λ d. d.avg_fare) (last days))) accent
          (map (λ d. record { label = f.short_date d.date; value = or_zero d.avg_fare }) days)
          by_currency
      ∷ []

  abbrev pub demand_panels : List (HourlyDemandPoint Number) → List (ChartPanel Number)
  demand_panels hours =
      record {
        title = codes "Demand by hour of day";
        value = some (f.count (some (sum (map (λ h. some (f.of_count h.trip_count)) hours))));
        content =
            bar_chart accent
              (map
                (λ h. record { label = format_hour_label h.hour; value = f.of_count h.trip_count })
                hours)
              by_count 3
            ∷ [];
      }
      ∷ record {
        title = codes "Avg fare by hour";
        value = some (f.currency (field_of (λ h. h.avg_fare) (first hours)));
        content =
            bar_chart warn
              (map (λ h. record { label = format_hour_label h.hour; value = or_zero h.avg_fare })
                hours)
              by_currency 3
            ∷ [];
      }
      ∷ []

  abbrev pub congestion_panels : List (CongestionPoint Number) → List (ChartPanel Number)
  congestion_panels days =
      trend (codes "Congestion surcharge trend")
        (f.currency (some (sum (map (λ c. c.total_congestion_surcharge) days)))) warn
        (map
          (λ c. record {
            label = f.short_date c.date;
            value = or_zero c.total_congestion_surcharge;
          })
          days)
        by_currency
      ∷ trend (codes "% trips with congestion pricing")
          (f.percent (field_of (λ c. c.congestion_trip_pct) (last days))) accent
          (map (λ c. record { label = f.short_date c.date; value = or_zero c.congestion_trip_pct })
            days)
          by_percent
      ∷ []

  -- `{x?.toFixed(n)}` among the children of an element, where nothing is shown for `undefined`.
  abbrev pub fixed_or_nothing : ℕ → Option Number → Text
  fixed_or_nothing n none = []
  fixed_or_nothing n (some x) = f.fixed n x

  abbrev pub quality_value : Option (ModelMetricPoint Number) → Option Text
  quality_value latest = elim (field_of (λ (m : ModelMetricPoint Number). m.r2) latest) [
    | none ↦ none
    | some r2 ↦ some (codes "R² " ++ f.fixed 2 r2)
  ]

  abbrev pub quality_content :
      List (ModelMetricPoint Number) → Option (ModelMetricPoint Number) → List (Content Number)
  quality_content metrics latest =
      if ltb (length metrics) 2
      then words (
          codes "Only one completed train run so far."
          ∷ (codes "MAE $"
              ++ (fixed_or_nothing 2 (field_of (λ m. m.mae) latest)
                  ++ (codes " · RMSE $"
                      ++ (fixed_or_nothing 2 (field_of (λ m. m.rmse) latest)
                          ++ codes " -- retrain again to see a trend."))))
          ∷ [])
        ∷ []
      else trend_chart crit
          (map (λ m. record { label = f.finished_date m.finished_at; value = or_zero m.mae })
            metrics)
          by_mae
        ∷ words (
            (codes "Latest: MAE $"
              ++ (fixed_or_nothing 2 (field_of (λ m. m.mae) latest)
                  ++ (codes " · RMSE $"
                      ++ (fixed_or_nothing 2 (field_of (λ m. m.rmse) latest)
                          ++ (codes " · R² "
                              ++ fixed_or_nothing 3 (field_of (λ m. m.r2) latest))))))
            ∷ [])
        ∷ []

  abbrev pub last_panels : DashboardsOverview Number → List (ChartPanel Number)
  last_panels o =
      record {
        title = codes "Model quality over retrains";
        value = quality_value (last o.model_metrics);
        content = quality_content o.model_metrics (last o.model_metrics);
      }
      ∷ record {
        title = codes "Top 10 pickup zones by volume";
        value = none;
        content =
            horizontal_bar_chart
              (map
                (λ z. record {
                  label = codes "Zone " ++ show z.zone_id;
                  value = f.of_count z.trip_count;
                })
                o.top_zones)
              by_count
            ∷ [];
      }
      ∷ record {
        title = codes "ETL pipeline health";
        value = none;
        content = elim o.etl_health [
          | [] ↦ words (codes "No completed runs yet." ∷ []) ∷ []
          | h ∷ hs ↦ etl_rows (map (λ r. (etl_texts r, etl_segments r)) (h ∷ hs)) ∷ []
        ];
      }
      ∷ []

  abbrev pub has_any {ℓ} : {A : Type ℓ} → List A → Bool
  has_any [] = false
  has_any (x ∷ xs) = true

  abbrev pub of_overview : DashboardsOverview Number → Screen Number
  of_overview o =
      if has_any o.daily_revenue || (has_any o.hourly_demand || has_any o.top_zones)
      then panels (
          revenue_panels o.daily_revenue
          ++ (demand_panels o.hourly_demand ++ (congestion_panels o.congestion ++ last_panels o)))
      else no_gold_data

  -- The arguments are `isError`, `isLoading` and `data`.
  unfoldable pub dashboards_screen :
      Bool → Bool → Option (DashboardsOverview Number) → Screen Number
  unfolding sum_from etl_segments etl_texts format_hour_label
  dashboards_screen true is_loading result = failed
  dashboards_screen false true result = loading
  dashboards_screen false false none = loading
  dashboards_screen false false (some o) = of_overview o
