-- ===== src/Charts/Zoom/Tests.antt =====
-- Zooming in a series of ten points, twice, and losing the points.
use openscale.Base.{ℕ, List, [], ◌∷◌, none, some, ◌≡◌, ◌⊎◌, refl, slice, arith}
use openscale.Charts.Zoom.{
  ZoomState, ZoomEvent, press, move, release, display_points, initial_zoom, zoom_steps, zoom_step,
  start_drag, update_drag, finish, base_offset, clamp_range, label_ends,
}
use openscale.Charts.Zoom.Laws.{display_points-drag, drag, label_ends-zoomed}

abbrev points : List ℕ
points = 10 ∷ 11 ∷ 12 ∷ 13 ∷ 14 ∷ 15 ∷ 16 ∷ 17 ∷ 18 ∷ 19 ∷ []

abbrev short : List ℕ
short = 1 ∷ 2 ∷ 3 ∷ []

abbrev no_points : List ℕ
no_points = []

abbrev events : List ZoomEvent
events = press 10 2 ∷ move 10 8 ∷ release ∷ []

abbrev zoomed : ZoomState
zoomed = zoom_steps initial_zoom events

zoomed_shows : display_points zoomed points ≡ 12 ∷ 13 ∷ 14 ∷ 15 ∷ 16 ∷ 17 ∷ 18 ∷ []
unfolding zoom_steps zoom_step start_drag update_drag finish base_offset display_points clamp_range
zoomed_shows = refl

display_points-drag_example :
    display_points (drag 4 1 points zoomed) points ≡ slice 1 5 (display_points zoomed points)
unfolding zoom_steps zoom_step start_drag update_drag finish base_offset display_points clamp_range
display_points-drag_example =
    display_points-drag zoomed points 4 1 refl (omega arith) (omega arith) (omega arith)

label_ends-zoomed_example :
    ((no_points ≡ []) × (label_ends zoomed no_points ≡ some (none, none)))
    ⊎ ((a b : ℕ) × (label_ends zoomed no_points ≡ some (some a, some b)))
unfolding zoom_steps zoom_step start_drag update_drag finish base_offset clamp_range
label_ends-zoomed_example = label_ends-zoomed zoomed no_points (2, 8) refl
