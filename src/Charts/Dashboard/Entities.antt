-- ===== src/Charts/Dashboard/Entities.antt =====
-- frontend/src/domains/dashboards/domain/entities.ts. Counts are natural numbers; `Number` is any other
-- number of the overview.
use openscale.Base.{ℕ, Text, List, Option}

pub record DailyRevenuePoint (Number : Type 0) : Type 0 where
  pub date : Text
  pub trip_count : ℕ
  pub total_revenue : Option Number
  pub total_fare : Option Number
  pub total_tips : Option Number
  pub avg_fare : Option Number

pub record HourlyDemandPoint (Number : Type 0) : Type 0 where
  pub hour : ℕ
  pub trip_count : ℕ
  pub avg_fare : Option Number
  pub avg_trip_distance : Option Number
  pub avg_passenger_count : Option Number

pub record ZoneStat (Number : Type 0) : Type 0 where
  pub zone_id : ℕ
  pub trip_count : ℕ
  pub total_revenue : Option Number
  pub avg_fare : Option Number
  pub avg_trip_distance : Option Number
  pub avg_tip : Option Number

pub record CongestionPoint (Number : Type 0) : Type 0 where
  pub date : Text
  pub trip_count : ℕ
  pub trips_with_congestion : ℕ
  pub total_congestion_surcharge : Option Number
  pub congestion_trip_pct : Option Number

pub record ModelMetricPoint (Number : Type 0) : Type 0 where
  pub finished_at : Text
  pub mae : Option Number
  pub rmse : Option Number
  pub r2 : Option Number

-- `avg_duration_seconds` is rounded.
pub record JobTypeHealth : Type 0 where
  pub job_type : Text
  pub succeeded : ℕ
  pub partial : ℕ
  pub failed : ℕ
  pub avg_duration_seconds : Option ℕ

pub record DashboardsOverview (Number : Type 0) : Type 0 where
  pub daily_revenue : List (DailyRevenuePoint Number)
  pub hourly_demand : List (HourlyDemandPoint Number)
  pub top_zones : List (ZoneStat Number)
  pub congestion : List (CongestionPoint Number)
  pub model_metrics : List (ModelMetricPoint Number)
  pub etl_health : List JobTypeHealth
