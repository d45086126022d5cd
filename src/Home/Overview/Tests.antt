-- ===== src/Home/Overview/Tests.antt =====
-- A trend of four days, one of them without an amount, and an overview whose runs failed to load.
use openscale.Base.{ℕ, codes, [], ◌∷◌, none, some, ◌≡◌, refl}
use openscale.Base.Decimal.{show}
use openscale.Home.Overview.{
  HomeOverview, RevenueTrend, ApiHomeStats, Texts, to_revenue_trend, fetch_home_overview,
}

abbrev plain : Texts
plain = record {
  clock = record { get_time = λ iso. none; now = 0 };
  format_run_time = λ iso. [];
  format_count = show;
  format_currency = show;
  fixed_two = show;
  percent_between = λ a b. show b;
}

abbrev stats : ApiHomeStats
stats = record {
  silver_rows_processed = none;
  months_ingested = 6;
  fare_model_mae = none;
  revenue_trend_14d = some 10 ∷ some 20 ∷ none ∷ some 25 ∷ [];
}

abbrev fallback : RevenueTrend
fallback = record { values = []; total_label = []; change_label = [] }

falling : (to_revenue_trend plain stats fallback).change_label ≡ codes "▼ 25%"
unfolding to_revenue_trend show
falling = refl

abbrev fetched : HomeOverview ℕ
fetched = record { gauges = 2; revenue_trend = fallback; stats = []; recent_runs = [] }

failures_keep_the_mock : fetch_home_overview plain (some fetched) none none ≡ some fetched
unfolding fetch_home_overview
failures_keep_the_mock = refl
