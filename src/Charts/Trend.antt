-- ===== src/Charts/Trend.antt =====
-- frontend/src/domains/dashboards/ui/charts/TrendChart.tsx: the treatment of the line and the points
-- that it goes through. Values are natural numbers, a coordinate is a fraction, and fixed styles are
-- left out.
mod Laws
mod Tests
use openscale.Base.{
  ℕ, zero, suc, ◌+◌, ◌-◌, ◌*◌, ◌==◌, min, max, Text, codes, List, [], ◌∷◌, ◌++◌, Option, none, some,
  Bool, true, false, length, get_elem?, if◌then◌else◌,
}
use openscale.Charts.Axis.{label_count, label_index}
use openscale.Charts.Bars.{BarPoint, drag_local_range}
use openscale.Charts.Pointer.{PointerState, is_dragging, hover_point}
use openscale.Charts.Zoom.{display_points, is_zoomed}
use openscale.Appearance.Settings.{
  ChartVariant, hatch, grid, paired, lollipop, area, block, split, ticks, capsule, ledger, ghost,
}

pub data Area : Type 0 where
  no_area gradient ghost_area hatch_area : Area

-- `tenths` is the stroke's width in tenths.
pub record Treatment : Type 0 where
  pub area : Area
  pub tenths : ℕ
  pub dash : Option Text
  pub step : Bool
  pub dots : Bool

abbrev pub treatment : Area → ℕ → Option Text → Bool → Bool → Treatment
treatment a w d s o = record { area = a; tenths = w; dash = d; step = s; dots = o }

unfoldable pub trend_treatment : ChartVariant → Treatment
trend_treatment grid = treatment no_area 15 none false false
trend_treatment paired = treatment no_area 15 none false false
trend_treatment ledger = treatment no_area 15 none false false
trend_treatment block = treatment gradient 25 none true false
trend_treatment ticks = treatment gradient 20 (some (codes "5,4")) false false
trend_treatment split = treatment gradient 20 (some (codes "5,4")) false false
trend_treatment lollipop = treatment gradient 20 none false true
trend_treatment capsule = treatment no_area 40 none false false
trend_treatment ghost = treatment ghost_area 15 none false false
trend_treatment hatch = treatment hatch_area 25 none false false
trend_treatment area = treatment gradient 25 none false false

-- `(num - less) / den`, which may lie below 0.
pub record Fraction : Type 0 where
  pub num : ℕ
  pub less : ℕ
  pub den : ℕ

pub record Coord : Type 0 where
  pub x : Fraction
  pub y : Fraction

-- The loop of `toStepPoints`, after a point at the height `y`.
abbrev pub steps_after : Fraction → List Coord → List Coord
steps_after y [] = []
steps_after y (c ∷ cs) = record { x = c.x; y = y } ∷ c ∷ steps_after c.y cs

unfoldable pub to_step_points : List Coord → List Coord
to_step_points [] = []
to_step_points (c ∷ cs) = c ∷ steps_after c.y cs

abbrev pub viewbox_width : ℕ
viewbox_width = 560

-- `Math.min(...values)` and `Math.max(...values)`, of a first value and the others.
unfoldable pub min_of : ℕ → List BarPoint → ℕ
min_of v [] = v
min_of v (p ∷ ps) = min v (min_of p.value ps)

unfoldable pub max_of : ℕ → List BarPoint → ℕ
max_of v [] = v
max_of v (p ∷ ps) = max v (max_of p.value ps)

-- `max - min || 1`
abbrev pub range_of : ℕ → ℕ → ℕ
range_of lo hi = if (hi - lo) == 0 then 1 else hi - lo

-- `i * step`, where `step` is the width over the number of gaps, or the width where there is none.
abbrev pub x_at : ℕ → ℕ → Fraction
x_at n i = record { num = i * viewbox_width; less = 0; den = if n - 1 == 0 then 1 else n - 1 }

-- `padTop + usableHeight * (1 - (value - min) / range)`, over 100 ranges: the padding is 0.12 of the
-- height, the rest in between 0.76 of it.
abbrev pub y_at : ℕ → ℕ → ℕ → ℕ → Fraction
y_at h lo range value = record {
  num = h * (12 * range) + h * 76 * (range + lo);
  less = h * 76 * value;
  den = 100 * range;
}

abbrev pub coords_from : ℕ → ℕ → ℕ → ℕ → ℕ → List BarPoint → List Coord
coords_from h n lo range i [] = []
coords_from h n lo range i (p ∷ ps) =
    record { x = x_at n i; y = y_at h lo range p.value } ∷ coords_from h n lo range (suc i) ps

unfoldable pub coords : ℕ → List BarPoint → List Coord
unfolding min_of max_of
coords h [] = []
coords h (p ∷ ps) =
    let lo = min_of p.value ps in
    coords_from h (length (p ∷ ps)) lo (range_of lo (max_of p.value ps)) 0 (p ∷ ps)

abbrev pub whole : ℕ → Fraction
whole n = record { num = n; less = 0; den = 1 }

abbrev pub corner : ℕ → ℕ → Coord
corner x y = record { x = whole x; y = whole y }

-- The labels under the axis, at the indices from the `i`-th on with `n` of them left; an index past
-- the end throws in the source.
abbrev pub axis_labels : List BarPoint → ℕ → ℕ → List (Option BarPoint)
axis_labels points i zero = []
axis_labels points i (suc n) =
    get_elem? points (label_index (length points) i) ∷ axis_labels points (suc i) n

-- The x coordinates of the drag's band; `none` in a part throws in the source.
abbrev pub band_ends : Option (ℕ × ℕ) → List Coord → Option (Option Coord × Option Coord)
band_ends none cs = none
band_ends (some (i, j)) cs = some (get_elem? cs i, get_elem? cs j)

-- Where the tooltip points to from the left and from the top, in parts of the picture, with its label
-- and its value.
pub record TrendTip : Type 0 where
  pub at : Coord
  pub point : BarPoint

abbrev pub tip_of : Option Coord → Option BarPoint → Option TrendTip
tip_of none p = none
tip_of (some c) none = none
tip_of (some c) (some p) = some record { at = c; point = p }

-- `too_few` is the note `Not enough data yet.`; `last_dot` is the last point of the line, `least` and
-- `most` the ends of the range under the axis.
pub data TrendView : Type 0 where
  too_few : TrendView
  shown :
      (zoomed : Bool) (line : List Coord) (filled : Option (Area × List Coord)) (dots : List Coord)
      (last_dot : Option Coord) (band : Option (Option Coord × Option Coord))
      (tip : Option TrendTip) (labels : List (Option BarPoint)) (least most : Option ℕ)
      → TrendView

abbrev pub least_of : List BarPoint → Option ℕ
least_of [] = none
least_of (p ∷ ps) = some (min_of p.value ps)

abbrev pub most_of : List BarPoint → Option ℕ
most_of [] = none
most_of (p ∷ ps) = some (max_of p.value ps)

abbrev pub filled_area : ℕ → Area → List Coord → Option (Area × List Coord)
filled_area h no_area line = none
filled_area h gradient line = some (gradient, line ++ corner viewbox_width h ∷ corner 0 h ∷ [])
filled_area h ghost_area line = some (ghost_area, line ++ corner viewbox_width h ∷ corner 0 h ∷ [])
filled_area h hatch_area line = some (hatch_area, line ++ corner viewbox_width h ∷ corner 0 h ∷ [])

abbrev pub trend_of : ℕ → Treatment → PointerState → List BarPoint → TrendView
trend_of h t s points =
    let cs = coords h points in
    let line = if t.step then to_step_points cs else cs in
    shown (is_zoomed s.zoom) line (filled_area h t.area line) (if t.dots then cs else [])
      (get_elem? cs (length cs - 1)) (band_ends (drag_local_range s.zoom) cs)
      (tip_of (hover_point s cs) (hover_point s points))
      (axis_labels points 0 (label_count (length points))) (least_of points) (most_of points)

unfoldable pub trend_chart : ℕ → ChartVariant → PointerState → List BarPoint → TrendView
unfolding trend_treatment coords to_step_points min_of max_of hover_point display_points label_index
trend_chart h variant s [] = too_few
trend_chart h variant s (p ∷ []) = too_few
trend_chart h variant s (p ∷ q ∷ ps) =
    trend_of h (trend_treatment variant) s (display_points s.zoom (p ∷ q ∷ ps))
