-- ===== src/Charts/Pointer/Laws.antt =====
-- Hovering and dragging exclude each other, and the index under the pointer is one of the points'.
use openscale.Base.{
  ℕ, ◌+◌, ◌-◌, ◌*◌, ◌/◌, ◌≤◌, ◌<◌, min, List, [], ◌∷◌, none, true, false, ◌≡◌, refl, inl, inr,
  Bool-cases, arith,
}
use native.Mathlib.Nat.{div-lt_iff_lt-mul, div-mul-le_self, lt-div-mul-add}
use openscale.Charts.Zoom.{ZoomState, finish, reset}
use openscale.Charts.Pointer.{
  bar_index_at, PointerState, initial_pointer, is_dragging, PointerEvent, mouse_down, mouse_move,
  mouse_leave, mouse_up, reset_click, pointer_step, pointer_steps, dimmed, hover_point,
}

-- A drag and a hovered point are never there together.
abbrev IsCalm : PointerState → Type 0
IsCalm s = is_dragging s.zoom ≡ true → s.hover_index ≡ none

dragging-finish : (z : ZoomState) → is_dragging (finish z) ≡ true → is_dragging z ≡ true
unfolding finish
dragging-finish z d = ground arith

dragging-reset : (z : ZoomState) → is_dragging (reset z) ≡ true → is_dragging z ≡ true
unfolding reset
dragging-reset z d = d

step-IsCalm : (s : PointerState) (e : PointerEvent) → IsCalm s → IsCalm (pointer_step s e)
unfolding pointer_step
step-IsCalm s (mouse_down n i) h = λ _. refl
step-IsCalm s (mouse_move n i) h = elim (Bool-cases (is_dragging s.zoom)) [
  | inl e ↦ rw e (λ _. h e)
  | inr e ↦ rw e (λ d. cc)
]
step-IsCalm s mouse_leave h = ground arith
step-IsCalm s mouse_up h = λ d. h (dragging-finish s.zoom d)
step-IsCalm s reset_click h = λ d. h (dragging-reset s.zoom d)

steps-IsCalm : (s : PointerState) (es : List PointerEvent) → IsCalm s → IsCalm (pointer_steps s es)
unfolding pointer_steps
steps-IsCalm s [] h = h
steps-IsCalm s (e ∷ es) h = steps-IsCalm (pointer_step s e) es (step-IsCalm s e h)

-- Whatever the pointer has done on a chart, over a series of whatever lengths: while a drag is under
-- way no bar is dimmed and no tooltip is shown.
pub pointer_steps-calm {ℓ} :
    {A : Type ℓ} (es : List PointerEvent) (points : List A) (k : ℕ)
    → is_dragging (pointer_steps initial_pointer es).zoom ≡ true
    → (dimmed (pointer_steps initial_pointer es) k ≡ false)
      × (hover_point (pointer_steps initial_pointer es) points ≡ none)
unfolding dimmed hover_point
pointer_steps-calm es points k d =
    let calm = steps-IsCalm initial_pointer es (λ e. refl) d in (rw calm refl, rw d refl)

-- The bar at index `i` of `n` bars is the one at `x`.
pub record IsUnder (width n x i : ℕ) : Type 0 where
  pub inside : i < n
  pub begins : i * width ≤ x * n
  pub ends : x * n < (i + 1) * width

lt-of : {x width : ℕ} → x < width → 0 < width
lt-of h = omega arith

-- While the pointer is within a bar chart that has points, the index under it is that of a point and
-- of the bar that it stands on: the bar begins at or left of it and ends right of it.
bar_index_at-IsUnder :
    (width n x : ℕ) → 0 < n → x < width → IsUnder width n x (bar_index_at width n x)
unfolding bar_index_at
bar_index_at-IsUnder width n x p h =
    let q = x * n / width in
    let below : x * n < n * width = grind arith in
    let inside : q < n = (div-lt_iff_lt-mul {k = width} (lt-of h)).1 below in
    let e : min (n - 1) q ≡ q = omega arith in
    rw e (record {
      inside = inside;
      begins = div-mul-le_self (x * n) width;
      ends = let l : x * n < q * width + width = lt-div-mul-add (omega arith) in grind arith;
    })
