-- ===== src/Charts/Console.antt =====
-- frontend/src/shared/design-system/ConsoleBarChart.tsx: the scale and the marks of the two-series
-- chart. Values are natural numbers; a percentage is a fraction, exact where a double would round.
pub mod Drawn
mod Scale
mod Marks
mod Fits
mod Mirror
mod Tests
use openscale.Base.{
  ℕ, zero, suc, ◌+◌, ◌-◌, ◌*◌, ◌/◌, max, Text, codes, List, [], ◌∷◌, ◌++◌, Option, none, some, Bool,
  true, false, ◌&&◌, ◌||◌, ◌==◌, ltb, leb, map, all, length, take_last, if◌then◌else◌,
}
use openscale.Charts.Axis.{round_div}
use openscale.Appearance.Settings.{
  ChartVariant, hatch, grid, paired, lollipop, area, block, split, ticks, capsule, ledger, ghost,
}

pub record ConsoleBarDatum : Type 0 where
  pub label : Text
  pub a : ℕ
  pub b : ℕ

-- `10 ** Math.floor(Math.log10(value))`: one unit of fuel for each digit.
magnitude : ℕ → ℕ → ℕ
magnitude zero value = 1
magnitude (suc fuel) value =
    let rest = 10 * magnitude fuel (value / 10) in if ltb value 10 then 1 else rest

-- `niceFraction`, where `fraction` is `value / m`.
unfoldable pub nice_fraction : ℕ → ℕ → ℕ
nice_fraction value m =
    if leb value m then 1 else if leb value (2 * m) then 2 else if leb value (5 * m) then 5 else 10

unfoldable pub nice_ceiling : ℕ → ℕ
unfolding magnitude nice_fraction
nice_ceiling zero = 1
nice_ceiling (suc v) = let m = magnitude (suc v) (suc v) in nice_fraction (suc v) m * m

-- `singleSeries`
unfoldable pub single_series : List ConsoleBarDatum → Bool
single_series series = all (λ d. d.b == 0) series

abbrev pub fall_back : Bool → ChartVariant → ChartVariant
fall_back true split = block
fall_back true paired = grid
fall_back true v = v
fall_back false v = v

unfoldable pub effective_variant : ChartVariant → List ConsoleBarDatum → ChartVariant
unfolding single_series
effective_variant variant series = fall_back (single_series series) variant

-- `Math.max(...data.map((d) => d.a + d.b), 1)`
unfoldable pub max_sum : List ConsoleBarDatum → ℕ
max_sum [] = 1
max_sum (d ∷ ds) = max (d.a + d.b) (max_sum ds)

-- `max ? max : niceCeiling(…)`; a `max` of 0 counts as missing.
unfoldable pub ceiling : Option ℕ → List ConsoleBarDatum → ℕ
unfolding nice_ceiling max_sum
ceiling none series = nice_ceiling (max_sum series)
ceiling (some limit) series = if limit == 0 then nice_ceiling (max_sum series) else limit

-- The `i`-th of `tickValues`.
unfoldable pub tick_value : ℕ → ℕ → ℕ → ℕ
tick_value top tick_count i = round_div (top * (tick_count - i)) tick_count

abbrev pub tick_values_from : ℕ → ℕ → ℕ → ℕ → List ℕ
tick_values_from top tick_count i zero = []
tick_values_from top tick_count i (suc n) =
    tick_value top tick_count i ∷ tick_values_from top tick_count (suc i) n

abbrev pub is_split : ChartVariant → Bool
is_split split = true
is_split v = false

-- `axisValues`; for a mirrored axis half the ceiling, a quarter, and back.
unfoldable pub axis_values : ChartVariant → ℕ → ℕ → List ℕ
unfolding tick_value
axis_values effective top tick_count =
    if is_split effective
    then round_div top 2 ∷ round_div top 4 ∷ 0 ∷ round_div top 4 ∷ round_div top 2 ∷ []
    else tick_values_from top tick_count 0 tick_count

-- `num / den` percent.
pub record Percent : Type 0 where
  pub num : ℕ
  pub den : ℕ

abbrev pub nothing : Percent
nothing = record { num = 0; den = 1 }

-- `g(v)`: 0 until the chart has grown.
abbrev pub once_grown : Bool → Percent → Percent
once_grown grown p = if grown then p else nothing

-- `pc(n)`, with `plotCeiling`, the ceiling with eight percent of headroom unless mirrored.
unfoldable pub pc : Bool → ChartVariant → ℕ → ℕ → Percent
pc grown effective top n = once_grown grown (
    if is_split effective
    then record { num = 100 * n; den = top }
    else record { num = 100 * (100 * n); den = 108 * top })

abbrev pub full : Percent
full = record { num = 100; den = 1 }

-- `maxHeight: '100%'`
abbrev pub cut : Percent → Percent
cut p = if leb p.num (100 * p.den) then p else full

-- `(n / ceiling) * 200`, cut.
unfoldable pub half_height : Bool → ℕ → ℕ → Percent
half_height grown top n = cut (once_grown grown (record { num = 200 * n; den = top }))

abbrev pub or_one : ℕ → ℕ
or_one n = if n == 0 then 1 else n

-- `topOf` and `botOf`
unfoldable pub top_of : ConsoleBarDatum → Percent
top_of d = record { num = 100 * d.a; den = or_one (d.a + d.b) }

unfoldable pub bot_of : ConsoleBarDatum → Percent
bot_of d = record { num = 100 * or_one (d.a + d.b) - 100 * d.a; den = or_one (d.a + d.b) }

pub data Paint : Type 0 where
  primary secondary grid_color : Paint

-- The cells from the `k`-th on, with `n` of them left.
unfoldable pub cells_from : ℕ → ℕ → ℕ → ℕ → List Paint
cells_from zero k bot on = []
cells_from (suc n) k bot on =
    (if ltb k bot then secondary else if ltb k on then primary else grid_color)
    ∷ cells_from n (suc k) bot on

-- What is drawn for one datum. `pair`: two bars; `stem`: a stem with its dots; `halves`: a bar up
-- and a bar down; `cells`: from the base up; `stacked`: a pill and its two parts;
-- `capped`: a bar with a cap; `column`: a bar of that width, with the part of the second series.
pub data Plot : Type 0 where
  pair : Percent → Percent → Plot
  stem : Percent → Plot
  halves : Percent → Percent → Plot
  cells : List Paint → Plot
  stacked : Percent → Percent → Percent → Plot
  capped : Percent → Plot
  column : Text → Percent → Percent → Plot

abbrev pub column_width : ChartVariant → Text
column_width block = codes "100%"
column_width grid = codes "min(12px, 52%)"
column_width v = codes "min(28px, 80%)"

module _ (grown : Bool) (top : ℕ) where
  abbrev pub column_of : ChartVariant → ConsoleBarDatum → Option Plot
  column_of effective d =
      some (column (column_width effective) (pc grown effective top (d.a + d.b)) (bot_of d))

  -- The function `plot`, at the effective variant; the area and the ledger are drawn without it.
  unfoldable pub plot : ChartVariant → ConsoleBarDatum → Option Plot
  unfolding pc half_height top_of bot_of cells_from
  plot paired d = some (pair (pc grown paired top d.a) (pc grown paired top d.b))
  plot lollipop d = some (stem (pc grown lollipop top (d.a + d.b)))
  plot split d = some (halves (half_height grown top d.a) (half_height grown top d.b))
  plot ticks d =
      some (cells (cells_from 10 0 (round_div (10 * d.b) top) (round_div (10 * (d.a + d.b)) top)))
  plot capsule d = some (stacked (pc grown capsule top (d.a + d.b)) (top_of d) (bot_of d))
  plot ghost d = some (capped (pc grown ghost top (d.a + d.b)))
  plot hatch d = column_of hatch d
  plot grid d = column_of grid d
  plot block d = column_of block d
  plot area d = none
  plot ledger d = none
