-- ===== src/Charts/Zoom.antt =====
-- frontend/src/domains/dashboards/ui/charts/useChartZoom.ts: the state of a chart's zoom and of a
-- drag. The series is an argument: it may change between two renders.
mod Laws
mod Tests
use openscale.Base.{
  ℕ, zero, suc, ◌+◌, ◌-◌, min, max, List, [], ◌∷◌, Option, none, some, Bool, true, false, not,
  if◌then◌else◌, ltb, ◌==◌, ◌&&◌, length, slice, get_elem?, is_some,
}

-- An index range, both ends included.
abbrev pub Range : Type 0
Range = ℕ × ℕ

-- `listener` is what the last `mouseup` handler that the effect installed has captured: the ends
-- of the drag and `baseOffset` at that render. It is installed anew when an end changes.
pub record ZoomState : Type 0 where
  pub zoom_range : Option Range
  pub drag_start_local : Option ℕ
  pub drag_end_local : Option ℕ
  pub listener : Option (ℕ × ℕ × ℕ)

-- `clamped`, as its first index and one past its last, for a series of `n` points: the first is
-- `Math.max(0, Math.min(range[0], n - 2))` and the last `Math.min(range[1], n - 1)`, which is -1
-- for no points. Subtraction that stops at 0 gives the same first index.
unfoldable pub clamp_range : ℕ → Range → ℕ × ℕ
clamp_range n (lo, hi) = (min lo (n - 2), min (hi + 1) n)

abbrev pub is_zoomed : ZoomState → Bool
is_zoomed z = is_some z.zoom_range

unfoldable pub base_offset : ZoomState → ℕ → ℕ
base_offset z n = elim z.zoom_range [ none ↦ 0 | some r ↦ (clamp_range n r).0 ]

module _ {ℓ} {A : Type ℓ} where
  unfoldable pub display_points : ZoomState → List A → List A
  display_points z points = elim z.zoom_range [
    | none ↦ points
    | some r ↦ let (lo, end) = clamp_range (length points) r in slice lo end points
  ]

  -- `points[end - 1]`; `points[-1]` is `undefined`.
  abbrev pub last_before : ℕ → List A → Option A
  last_before zero points = none
  last_before (suc i) points = get_elem? points i

  -- The two points whose labels the zoom label reads. `none` in a part is `undefined`, on which
  -- `labelOf`, a read of `.label`, throws.
  unfoldable pub label_ends : ZoomState → List A → Option (Option A × Option A)
  label_ends z points = elim z.zoom_range [
    | none ↦ none
    | some r ↦
        let (lo, end) = clamp_range (length points) r in
        some (get_elem? points lo, last_before end points)
  ]

abbrev pub same_end : Option ℕ → ℕ → Bool
same_end none i = false
same_end (some j) i = j == i

-- A press where both ends are at the index already changes no state, and installs no handler.
unfoldable pub start_drag : ℕ → ℕ → ZoomState → ZoomState
start_drag n i z =
    if same_end z.drag_start_local i && same_end z.drag_end_local i then z else record z {
      drag_start_local = some i;
      drag_end_local = some i;
      listener = some (i, i, base_offset z n);
    }

-- A move to another index; one to the same index changes no state, and installs no handler.
unfoldable pub update_drag : ℕ → ℕ → ZoomState → ZoomState
update_drag n i z = if same_end z.drag_end_local i then z else elim z.drag_start_local [
  | none ↦ record z { drag_end_local = some i }
  | some start ↦ record z { drag_end_local = some i; listener = some (start, i, base_offset z n) }
]

-- `finish`: at least one index apart, the drag becomes the zoom; then the drag is over.
unfoldable pub finish : ZoomState → ZoomState
finish z = elim z.listener [
  | none ↦ z
  | some (start, end, base) ↦ record {
    zoom_range =
        if start == end then z.zoom_range else some (base + min start end, base + max start end);
    drag_start_local = none;
    drag_end_local = none;
    listener = none;
  }
]

unfoldable pub reset : ZoomState → ZoomState
reset z = record z { zoom_range = none }

abbrev pub initial_zoom : ZoomState
initial_zoom = record {
  zoom_range = none;
  drag_start_local = none;
  drag_end_local = none;
  listener = none;
}

-- What can happen to a chart; each carries the length of the series at that render.
pub data ZoomEvent : Type 0 where
  press : ℕ → ℕ → ZoomEvent
  move : ℕ → ℕ → ZoomEvent
  release : ZoomEvent
  reset_click : ZoomEvent

unfoldable pub zoom_step : ZoomState → ZoomEvent → ZoomState
zoom_step z (press n i) = start_drag n i z
zoom_step z (move n i) = update_drag n i z
zoom_step z release = finish z
zoom_step z reset_click = reset z

unfoldable pub zoom_steps : ZoomState → List ZoomEvent → ZoomState
zoom_steps z [] = z
zoom_steps z (e ∷ es) = zoom_steps (zoom_step z e) es
