-- ===== src/Charts/Console/Drawn.antt =====
-- frontend/src/shared/design-system/ConsoleBarChart.tsx: the area, the ledger, and the whole chart.
use openscale.Base.{
  ℕ, suc, ◌+◌, ◌-◌, ◌*◌, max, Text, List, [], ◌∷◌, ◌++◌, Option, none, some, Bool, true, false, map,
  length, take_last, if◌then◌else◌,
}
use openscale.Appearance.Settings.{ChartVariant, area, ledger}
use openscale.Charts.Console.{
  ConsoleBarDatum, Percent, Plot, ceiling, effective_variant, axis_values, is_split, once_grown, pc,
  plot,
}

-- A corner of a polygon of the area, its place from the left and its height over the base, which the
-- source takes from 100.
pub record AreaPoint : Type 0 where
  pub x : Percent
  pub height : Percent

-- `pts(pick)`, from the `i`-th datum on; `gaps` is `Math.max(data.length - 1, 1)`.
abbrev pub area_points_from :
    Bool → ℕ → ℕ → ℕ → (ConsoleBarDatum → ℕ) → List ConsoleBarDatum → List AreaPoint
area_points_from grown top gaps i pick [] = []
area_points_from grown top gaps i pick (d ∷ ds) =
    record {
      x = record { num = 100 * i; den = gaps };
      height = once_grown grown (record { num = 100 * pick d; den = top });
    }
    ∷ area_points_from grown top gaps (suc i) pick ds

-- `areaPlot`: the corners for the sums and for the second series, each polygon closed along the base.
unfoldable pub area_plot : Bool → ℕ → List ConsoleBarDatum → List AreaPoint × List AreaPoint
area_plot grown top series =
    let gaps = max (length series - 1) 1 in
    (
      area_points_from grown top gaps 0 (λ d. d.a + d.b) series,
      area_points_from grown top gaps 0 (λ d. d.b) series,
    )

-- A row of the ledger: the label, the two widths, and the number whose text is shown.
pub record LedgerRow : Type 0 where
  pub label : Text
  pub width_a : Percent
  pub width_b : Percent
  pub total : ℕ

unfoldable pub ledger_rows : Bool → ℕ → List ConsoleBarDatum → List LedgerRow
unfolding pc
ledger_rows grown top series =
    map
      (λ d. record {
        label = d.label;
        width_a = pc grown ledger top d.a;
        width_b = pc grown ledger top d.b;
        total = d.a + d.b;
      })
      (take_last 8 series)

-- The chart: the rows of the ledger, or the values of the axis, 0 included unless it is mirrored,
-- the area where it is drawn, and for each datum its label and, unless the area is drawn, its plot.
pub data Chart : Type 0 where
  rows : List LedgerRow → Chart
  plots : List ℕ → Option (List AreaPoint × List AreaPoint) → List (Text × Option Plot) → Chart

abbrev pub axis_shown : ChartVariant → ℕ → ℕ → List ℕ
axis_shown effective top tick_count =
    if is_split effective
    then axis_values effective top tick_count
    else axis_values effective top tick_count ++ 0 ∷ []

abbrev pub is_ledger : ChartVariant → Bool
is_ledger ledger = true
is_ledger v = false

abbrev pub shown_area :
    ChartVariant → List AreaPoint × List AreaPoint → Option (List AreaPoint × List AreaPoint)
shown_area area p = some p
shown_area v p = none

unfoldable pub console_bar_chart : Bool → Option ℕ → ℕ → ChartVariant → List ConsoleBarDatum → Chart
unfolding ceiling effective_variant axis_values plot area_plot ledger_rows
console_bar_chart grown limit tick_count variant series =
    let top = ceiling limit series in
    let effective = effective_variant variant series in
    if is_ledger variant
    then rows (ledger_rows grown top series)
    else plots (axis_shown effective top tick_count)
        (shown_area variant (area_plot grown top series))
        (map (λ d. (d.label, plot grown top effective d)) series)
