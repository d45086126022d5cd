-- ===== src/Home/Screen.antt =====
-- frontend/src/domains/home/ui: HomeScreen.tsx, GaugeRow.tsx, StatsRow.tsx and RecentRunsTable.tsx, with
-- StatCard.tsx and DeltaChip.tsx of frontend/src/shared/design-system. Values of the trend are natural
-- numbers, as in Overview.
mod Laws
mod Tests
use openscale.Base.{
  ℕ, suc, ◌+◌, ◌-◌, ◌==◌, Text, codes, text_eq, List, [], ◌∷◌, ◌++◌, map, any, Option, none, some,
  Bool, true, false, not, ◌&&◌, ◌||◌, leb, if◌then◌else◌,
}
use openscale.Base.Decimal.{show}
use openscale.Pipelines.Runs.{Status, good, warn, crit}
use openscale.Pipelines.RunTable.{Formats, format_run_rows}
use openscale.Appearance.Settings.{ChartVariant}
use openscale.Charts.Console.{ConsoleBarDatum}
use openscale.Charts.Console.Drawn.{Chart, console_bar_chart}
use openscale.Search.Matching.{trim_start}
use openscale.Home.Overview.{HomeStat, PipelineRunSummary, RevenueTrend, HomeOverview}

-- `\w`
abbrev pub is_word : ℕ → Bool
is_word c =
    (leb 48 c && leb c 57) || ((leb 65 c && leb c 90) || (c == 95 || (leb 97 c && leb c 122)))

-- `toUpperCase` of a character of `\w`.
abbrev pub upper : ℕ → ℕ
upper c = if leb 97 c && leb c 122 then c - 32 else c

-- The rest of a label, where the flag tells whether a word character stands before it.
abbrev pub title_from : Bool → Text → Text
title_from within [] = []
title_from within (c ∷ cs) =
    (if is_word c && not within then upper c else c) ∷ title_from (is_word c) cs

unfoldable pub title_case : Text → Text
title_case label = title_from false label

-- A card of the first row: its label, its value, whether it has an icon and the solid background.
pub record StatCard : Type 0 where
  pub label : Text
  pub value : Text
  pub has_icon : Bool
  pub is_brand : Bool

abbrev pub icon_ids : List Text
icon_ids = codes "silver-rows" ∷ codes "months" ∷ codes "gold-tables" ∷ codes "fare-mae" ∷ []

unfoldable pub stat_card : HomeStat → StatCard
unfolding title_case
stat_card stat = record {
  label = title_case stat.label;
  value = stat.value;
  has_icon = any (λ id. text_eq id stat.id) icon_ids;
  is_brand = text_eq stat.id (codes "silver-rows");
}

-- A row of the recent runs: its texts, and the status and the text of its pill.
pub record RecentRow : Type 0 where
  pub words : List Text
  pub status : Status
  pub pill : Text

abbrev pub pill_text : Status → Text
pill_text good = codes "success"
pill_text warn = codes "partial"
pill_text crit = codes "partial"

unfoldable pub recent_row : Formats → PipelineRunSummary → RecentRow
unfolding format_run_rows
recent_row formats run = record {
  words =
      run.job_name
      ∷ run.started_at
      ∷ run.duration_label
      ∷ format_run_rows formats run.rows_processed
      ∷ [];
  status = run.status;
  pill = pill_text run.status;
}

-- `changeLabel.includes('▼')`, and `changeLabel.replace(/[▲▼]\s*/, '')`.
abbrev pub up_arrow : ℕ
up_arrow = 9650

abbrev pub down_arrow : ℕ
down_arrow = 9660

unfoldable pub is_positive : Text → Bool
is_positive label = not (any (λ c. c == down_arrow) label)

unfoldable pub without_arrow : Text → Text
without_arrow [] = []
without_arrow (c ∷ cs) =
    let rest = c ∷ without_arrow cs in
    if c == up_arrow || c == down_arrow then trim_start cs else rest

-- The data of the revenue chart, numbered from `i`.
unfoldable pub chart_data : ℕ → List ℕ → List ConsoleBarDatum
chart_data i [] = []
chart_data i (v ∷ vs) = record { label = show (i + 1); a = v; b = 0 } ∷ chart_data (suc i) vs

-- The panel `Daily Revenue`: the total, the chip with its direction, and the chart with five ticks.
pub record RevenuePanel : Type 0 where
  pub total : Text
  pub chip : Text
  pub is_up : Bool
  pub chart : Chart

unfoldable pub revenue_panel : Bool → ChartVariant → RevenueTrend → RevenuePanel
unfolding is_positive without_arrow chart_data console_bar_chart
revenue_panel grown style trend = record {
  total = trend.total_label;
  chip = without_arrow trend.change_label;
  is_up = is_positive trend.change_label;
  chart = console_bar_chart grown none 5 style (chart_data 0 trend.values);
}

-- The screen: a note while the overview loads; otherwise the cards, the gauges, the revenue panel,
-- the containers if they are known, and the recent runs.
pub data HomeView (Gauges Containers : Type 0) : Type 0 where
  loading : HomeView Gauges Containers
  shown :
      List StatCard
      → Gauges
      → RevenuePanel
      → Option Containers
      → List RecentRow
      → HomeView Gauges Containers

-- `live` is the answer of the polled statistics: the gauges of its totals, and its containers.
abbrev pub gauges_of : {Gauges Containers : Type 0} → Gauges → Option (Gauges × Containers) → Gauges
gauges_of gauges none = gauges
gauges_of gauges (some live) = live.0

abbrev pub containers_of :
    {Gauges Containers : Type 0} → Option (Gauges × Containers) → Option Containers
containers_of none = none
containers_of (some live) = some live.1

unfoldable pub home_screen :
    {Gauges Containers : Type 0}
    → Formats
    → Bool
    → ChartVariant
    → Bool
    → Option (HomeOverview Gauges)
    → Option (Gauges × Containers)
    → HomeView Gauges Containers
unfolding stat_card recent_row revenue_panel
home_screen formats grown style true data_ live = loading
home_screen formats grown style false none live = loading
home_screen formats grown style false (some data_) live =
    shown (map stat_card data_.stats) (gauges_of data_.gauges live)
      (revenue_panel grown style data_.revenue_trend) (containers_of live)
      (map (recent_row formats) data_.recent_runs)
