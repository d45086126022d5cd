-- ===== src/Charts/Bars.antt =====
-- What frontend/src/domains/dashboards/ui/charts/BarChart.tsx and HorizontalBarChart.tsx show. Values
-- are natural numbers, a percentage is a fraction, and fixed styles are left out.
mod Laws
mod Tests
use openscale.Base.{
  ℕ, zero, suc, ◌+◌, ◌-◌, ◌*◌, ◌%◌, ◌==◌, min, max, Text, List, [], ◌∷◌, Option, none, some, Bool,
  true, false, not, ltb, leb, length, if◌then◌else◌,
}
use openscale.Charts.Console.{Percent}
use openscale.Charts.Zoom.{ZoomState, display_points, is_zoomed}
use openscale.Charts.Pointer.{PointerState, is_dragging, hover_point, dimmed}

pub record BarPoint : Type 0 where
  pub label : Text
  pub value : ℕ

-- `Math.max(...points.map((p) => p.value), 1)`
unfoldable pub max_value : List BarPoint → ℕ
max_value [] = 1
max_value (p ∷ ps) = max p.value (max_value ps)

-- `Math.max(2, (value / max) * 100)`
unfoldable pub bar_pct : ℕ → ℕ → Percent
bar_pct most value =
    if leb (100 * value) (2 * most)
    then record { num = 2; den = 1 }
    else record { num = 100 * value; den = most }

-- One bar: its height, whether it is dimmed, and the text under it, empty for all but every
-- `stride`-th.
pub record Bar : Type 0 where
  pub pct : Percent
  pub is_dimmed : Bool
  pub label : Text

abbrev pub bars_from : PointerState → ℕ → ℕ → ℕ → List BarPoint → List Bar
bars_from s stride most i [] = []
bars_from s stride most i (p ∷ ps) =
    record {
      pct = bar_pct most p.value;
      is_dimmed = dimmed s i;
      label = if i % stride == 0 then p.label else [];
    }
    ∷ bars_from s stride most (suc i) ps

-- `dragLocalRange`
abbrev pub drag_local_range : ZoomState → Option (ℕ × ℕ)
drag_local_range z = elim z.drag_start_local [
  | none ↦ none
  | some i ↦ elim z.drag_end_local [ none ↦ none | some j ↦ some (min i j, max i j) ]
]

-- The left edge of the drag's band and its right edge, in percent.
abbrev pub drag_band : Option (ℕ × ℕ) → ℕ → Option (Percent × Percent)
drag_band none n = none
drag_band (some (lo, hi)) n =
    some (record { num = 100 * lo; den = n }, record { num = 100 * (hi + 1); den = n })

-- The tooltip: where it points to from the left and from the top, its label and its value.
pub record Tooltip : Type 0 where
  pub left : Percent
  pub top : Percent
  pub label : Text
  pub value : ℕ

abbrev pub index_or_zero : Option ℕ → ℕ
index_or_zero none = 0
index_or_zero (some i) = i

abbrev pub from_hundred : Percent → Percent
from_hundred p = record { num = 100 * p.den - p.num; den = p.den }

abbrev pub tooltip_of : PointerState → ℕ → ℕ → Option BarPoint → Option Tooltip
tooltip_of s n most none = none
tooltip_of s n most (some p) = some record {
  left = record { num = 100 * (2 * index_or_zero s.hover_index + 1); den = 2 * n };
  top = from_hundred (bar_pct most p.value);
  label = p.label;
  value = p.value;
}

-- `too_few` is the note `Not enough data yet.`; the zoom controls show the label of the zoom.
pub data BarView : Type 0 where
  too_few : BarView
  shown : (zoomed : Bool) → List Bar → Option (Percent × Percent) → Option Tooltip → BarView

unfoldable pub bar_chart : ℕ → PointerState → List BarPoint → BarView
unfolding display_points max_value bar_pct hover_point dimmed
bar_chart stride s [] = too_few
bar_chart stride s (p ∷ ps) =
    let points = display_points s.zoom (p ∷ ps) in
    let most = max_value points in
    shown (is_zoomed s.zoom) (bars_from s stride most 0 points)
      (drag_band (drag_local_range s.zoom) (length points))
      (tooltip_of s (length points) most (hover_point s points))

-- A row of the horizontal chart: whether it is hovered over, its label, its bar and its value.
pub record Row : Type 0 where
  pub hovered : Bool
  pub label : Text
  pub pct : Percent
  pub is_dimmed : Bool
  pub value : ℕ

abbrev pub is_hovered : Option ℕ → ℕ → Bool
is_hovered none i = false
is_hovered (some j) i = j == i

abbrev pub rows_from : Option ℕ → ℕ → ℕ → List BarPoint → List Row
rows_from hover most i [] = []
rows_from hover most i (p ∷ ps) =
    record {
      hovered = is_hovered hover i;
      label = p.label;
      pct = bar_pct most p.value;
      is_dimmed = elim hover [ none ↦ false | some j ↦ not (j == i) ];
      value = p.value;
    }
    ∷ rows_from hover most (suc i) ps

-- No rows stand for the note `Not enough data yet.`
unfoldable pub horizontal_bar_chart : Option ℕ → List BarPoint → List Row
unfolding max_value bar_pct
horizontal_bar_chart hover points = rows_from hover (max_value points) 0 points

-- `onMouseEnter` and `onMouseLeave` of row `i`.
unfoldable pub enter_row : ℕ → Option ℕ → Option ℕ
enter_row i hover = some i

unfoldable pub leave_row : ℕ → Option ℕ → Option ℕ
leave_row i none = none
leave_row i (some j) = if j == i then none else some j
