-- ===== src/Charts/Pointer.antt =====
-- The pointer handlers of frontend/src/domains/dashboards/ui/charts/BarChart.tsx and TrendChart.tsx,
-- which move either the drag of useChartZoom.ts or the point that is hovered over.
mod Laws
mod Tests
use openscale.Base.{
  ℕ, ◌-◌, ◌*◌, ◌/◌, ◌==◌, min, List, [], ◌∷◌, Option, none, some, Bool, true, false, not, is_some,
  get_elem?, if◌then◌else◌,
}
use openscale.Charts.Axis.{round_div}
use openscale.Charts.Zoom.{ZoomState, initial_zoom, start_drag, update_drag, finish, reset}

-- `x` is `e.clientX - rect.left`, from 0 on, and `n` the number of points shown.
unfoldable pub bar_index_at : ℕ → ℕ → ℕ → ℕ
bar_index_at width n x = min (n - 1) (x * n / width)

unfoldable pub trend_index_at : ℕ → ℕ → ℕ → ℕ
trend_index_at width n x = min (n - 1) (round_div (x * (n - 1)) width)

pub record PointerState : Type 0 where
  pub zoom : ZoomState
  pub hover_index : Option ℕ

abbrev pub initial_pointer : PointerState
initial_pointer = record { zoom = initial_zoom; hover_index = none }

-- `zoom.isDragging`
abbrev pub is_dragging : ZoomState → Bool
is_dragging z = is_some z.drag_start_local

-- The index is `indexAt(e)`; the first argument is the length of the series at that render.
unfoldable pub handle_mouse_down : ℕ → ℕ → PointerState → PointerState
handle_mouse_down n i s = record { zoom = start_drag n i s.zoom; hover_index = none }

unfoldable pub handle_mouse_move : ℕ → ℕ → PointerState → PointerState
handle_mouse_move n i s =
    if is_dragging s.zoom
    then record s { zoom = update_drag n i s.zoom }
    else record s { hover_index = some i }

unfoldable pub handle_mouse_leave : PointerState → PointerState
handle_mouse_leave s = if is_dragging s.zoom then s else record s { hover_index = none }

pub data PointerEvent : Type 0 where
  mouse_down : ℕ → ℕ → PointerEvent
  mouse_move : ℕ → ℕ → PointerEvent
  mouse_leave : PointerEvent
  mouse_up : PointerEvent
  reset_click : PointerEvent

unfoldable pub pointer_step : PointerState → PointerEvent → PointerState
unfolding handle_mouse_down handle_mouse_move handle_mouse_leave
pointer_step s (mouse_down n i) = handle_mouse_down n i s
pointer_step s (mouse_move n i) = handle_mouse_move n i s
pointer_step s mouse_leave = handle_mouse_leave s
pointer_step s mouse_up = record s { zoom = finish s.zoom }
pointer_step s reset_click = record s { zoom = reset s.zoom }

unfoldable pub pointer_steps : PointerState → List PointerEvent → PointerState
pointer_steps s [] = s
pointer_steps s (e ∷ es) = pointer_steps (pointer_step s e) es

-- `hoverPoint`: none while dragging, or where the index is past the end.
unfoldable pub hover_point {ℓ} : {A : Type ℓ} → PointerState → List A → Option A
hover_point s points =
    if is_dragging s.zoom
    then none
    else elim s.hover_index [ none ↦ none | some i ↦ get_elem? points i ]

-- `dimmed` of the bar at an index.
unfoldable pub dimmed : PointerState → ℕ → Bool
dimmed s i = elim s.hover_index [ none ↦ false | some j ↦ not (j == i) ]
