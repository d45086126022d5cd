-- ===== src/Charts/Pointer/Tests.antt =====
-- A drag over four bars, and a hover.
use openscale.Base.{ℕ, List, [], ◌∷◌, none, some, true, false, ◌≡◌, refl}
use openscale.Charts.Zoom.{start_drag, update_drag, finish, base_offset}
use openscale.Charts.Pointer.{
  initial_pointer, is_dragging, PointerEvent, mouse_down, mouse_move, mouse_up, pointer_step,
  pointer_steps, dimmed, hover_point,
}
use openscale.Charts.Pointer.Laws.{pointer_steps-calm}

abbrev drag : List PointerEvent
drag = mouse_move 4 2 ∷ mouse_down 4 1 ∷ mouse_move 4 3 ∷ []

zoomed :
    (pointer_steps initial_pointer
      (mouse_down 4 1 ∷ mouse_move 4 3 ∷ mouse_up ∷ [])).zoom.zoom_range
    ≡ some (1, 3)
unfolding pointer_steps pointer_step start_drag update_drag finish base_offset
zoomed = refl

dragging : is_dragging (pointer_steps initial_pointer drag).zoom ≡ true
unfolding pointer_steps pointer_step start_drag update_drag base_offset
dragging = refl

pointer_steps-calm_example :
    (dimmed (pointer_steps initial_pointer drag) 0 ≡ false)
    × (hover_point {A = ℕ} (pointer_steps initial_pointer drag) (10 ∷ 20 ∷ []) ≡ none)
pointer_steps-calm_example = pointer_steps-calm drag (10 ∷ 20 ∷ []) 0 dragging
