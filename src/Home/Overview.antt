-- ===== src/Home/Overview.antt =====
-- frontend/src/domains/home/application/useHomeOverview.ts: the overview put together from the mock,
-- the recent runs and the statistics, each of which may fail. Amounts of money are natural numbers
-- of cents; texts of numbers and times are the host's.
mod Laws
mod Tests
use openscale.Base.{
  ℕ, ◌+◌, ◌-◌, ◌/◌, ◌==◌, Text, codes, List, [], ◌∷◌, ◌++◌, map, Option, none, some, Bool, true,
  false, ltb, leb, ◌||◌, if◌then◌else◌, length, take, drop,
}
use openscale.Base.Decimal.{show}
use openscale.Pipelines.Runs.{JobRun, Status, derive_run_status}
use openscale.Pipelines.Duration.{Clock, format_run_duration}

pub record HomeStat : Type 0 where
  pub id : Text
  pub label : Text
  pub value : Text

pub record PipelineRunSummary : Type 0 where
  pub id : Text
  pub job_name : Text
  pub started_at : Text
  pub duration_label : Text
  pub status : Status
  pub rows_processed : Option ℕ

pub record RevenueTrend : Type 0 where
  pub values : List ℕ
  pub total_label : Text
  pub change_label : Text

-- `gauges` is carried through.
pub record HomeOverview (Gauges : Type 0) : Type 0 where
  pub gauges : Gauges
  pub revenue_trend : RevenueTrend
  pub stats : List HomeStat
  pub recent_runs : List PipelineRunSummary

-- A point of the trend is its `totalRevenue`, if there is one.
pub record ApiHomeStats : Type 0 where
  pub silver_rows_processed : Option ℕ
  pub months_ingested : ℕ
  pub fare_model_mae : Option ℕ
  pub revenue_trend_14d : List (Option ℕ)

-- The host's texts: of times, counts, money and fixed decimals, and of the change in percent from
-- a first to a second sum.
pub record Texts : Type 0 where
  pub clock : Clock
  pub format_run_time : Option Text → Text
  pub format_count : ℕ → Text
  pub format_currency : ℕ → Text
  pub fixed_two : ℕ → Text
  pub percent_between : ℕ → ℕ → Text

abbrev pub gold_table_count : Text
gold_table_count = codes "4"

abbrev pub text_or_dash : (ℕ → Text) → Option ℕ → Text
text_or_dash format none = codes "—"
text_or_dash format (some n) = format n

abbrev pub sum : List ℕ → ℕ
sum [] = 0
sum (n ∷ ns) = n + sum ns

-- `p.totalRevenue ?? 0`
abbrev pub or_zero : Option ℕ → ℕ
or_zero none = 0
or_zero (some n) = n

module _ (texts : Texts) where
  unfoldable pub to_run_summary : JobRun → PipelineRunSummary
  to_run_summary run = record {
    id = run.id;
    job_name = run.job_type;
    started_at = texts.format_run_time run.started_at;
    duration_label = format_run_duration texts.clock run.started_at run.finished_at run.state;
    status = derive_run_status run.state;
    rows_processed = run.rows_processed;
  }

  unfoldable pub to_home_stats : ApiHomeStats → List HomeStat
  to_home_stats stats =
      record {
        id = codes "silver-rows";
        label = codes "Silver rows processed";
        value = text_or_dash texts.format_count stats.silver_rows_processed;
      }
      ∷ record {
        id = codes "months";
        label = codes "months ingested";
        value = show stats.months_ingested;
      }
      ∷ record { id = codes "gold-tables"; label = codes "Gold tables"; value = gold_table_count }
      ∷ record {
        id = codes "fare-mae";
        label = codes "fare model MAE";
        value = text_or_dash (λ n. codes "$" ++ texts.fixed_two n) stats.fare_model_mae;
      }
      ∷ []

  -- The first and the second half of the values, summed.
  abbrev pub first_half : List ℕ → ℕ
  first_half values = sum (take (length values / 2) values)

  abbrev pub second_half : List ℕ → ℕ
  second_half values = sum (drop (length values / 2) values)

  -- `changePct >= 0`; the change is 0 if the first half is.
  abbrev pub is_rise : List ℕ → Bool
  is_rise values = first_half values == 0 || leb (first_half values) (second_half values)

  unfoldable pub to_revenue_trend : ApiHomeStats → RevenueTrend → RevenueTrend
  to_revenue_trend stats fallback =
      let values = map or_zero stats.revenue_trend_14d in
      if ltb (length values) 2 then fallback else record {
        values = values;
        total_label = texts.format_currency (sum values);
        change_label =
            (if is_rise values then codes "▲" else codes "▼")
            ++ (codes " "
                ++ (texts.percent_between (first_half values) (second_half values) ++ codes "%"));
      }

  abbrev pub with_runs : {Gauges : Type 0} → List JobRun → HomeOverview Gauges → HomeOverview Gauges
  with_runs [] overview = overview
  with_runs (run ∷ runs) overview = record overview {
    recent_runs = map to_run_summary (run ∷ runs);
  }

  -- The trend falls back to the one of the overview as fetched.
  abbrev pub with_stats :
      {Gauges : Type 0} → Option ApiHomeStats → HomeOverview Gauges → HomeOverview Gauges
  with_stats none overview = overview
  with_stats (some stats) overview = record overview {
    stats = to_home_stats stats;
    revenue_trend = to_revenue_trend stats overview.revenue_trend;
  }

  -- `page.runs` after the `catch`: none for a request that failed.
  abbrev pub runs_or_empty : Option (List JobRun) → List JobRun
  runs_or_empty none = []
  runs_or_empty (some runs) = runs

  -- `queryFn`; only a failure of `fetchOverview` fails it.
  unfoldable pub fetch_home_overview :
      {Gauges : Type 0}
      → Option (HomeOverview Gauges)
      → Option (List JobRun)
      → Option ApiHomeStats
      → Option (HomeOverview Gauges)
  fetch_home_overview none page stats = none
  fetch_home_overview (some overview) page stats =
      some (with_stats stats (with_runs (runs_or_empty page) overview))
