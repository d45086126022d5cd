-- ===== src/Charts/Zoom/Laws.antt =====
-- What a zoomed chart shows.
use openscale.Base.{
  ℕ, zero, suc, ◌+◌, ◌-◌, ◌≤◌, ◌<◌, min, max, List, [], ◌∷◌, none, some, false, ◌==◌, ◌≡◌, ◌≢◌, ◌⊎◌,
  inl, inr, refl, ap, ap₂, sym, ◌∙◌, arith, length, slice, get_elem?, length-slice, slice-slice,
  take_of_length_le, Option-cases,
}
use openscale.Charts.Zoom.{
  Range, ZoomState, clamp_range, base_offset, display_points, last_before, label_ends, start_drag,
  update_drag, finish, reset, initial_zoom, ZoomEvent, press, move, release, reset_click, zoom_step,
  zoom_steps,
}

-- Every range that a drag leaves is at least two indices wide.
abbrev pub IsWide : ZoomState → Type 0
IsWide z = (r : Range) → z.zoom_range ≡ some r → r.0 < r.1

zoom_step-IsWide : (z : ZoomState) (e : ZoomEvent) → IsWide z → IsWide (zoom_step z e)
unfolding zoom_step start_drag update_drag finish reset
zoom_step-IsWide z (press n i) w = λ r h. w r (ground arith)
zoom_step-IsWide z (move n i) w = λ r h. w r (ground arith)
zoom_step-IsWide z release w = λ r h. ground (arith, w r)
zoom_step-IsWide z reset_click w = λ r h. cc

zoom_steps-IsWide : (z : ZoomState) (es : List ZoomEvent) → IsWide z → IsWide (zoom_steps z es)
unfolding zoom_steps
zoom_steps-IsWide z [] w = w
zoom_steps-IsWide z (e ∷ es) w = zoom_steps-IsWide (zoom_step z e) es (zoom_step-IsWide z e w)

clamp_exact : (n lo hi : ℕ) → lo < hi → hi < n → clamp_range n (lo, hi) ≡ (lo, hi + 1)
unfolding clamp_range
clamp_exact n lo hi h k = ap₂ (λ a b. (a, b)) (omega arith) (omega arith)

start_idle :
    (z : ZoomState) (n i : ℕ)
    → z.drag_start_local ≡ none
    → start_drag n i z ≡ record z {
      drag_start_local = some i;
      drag_end_local = some i;
      listener = some (i, i, base_offset z n);
    }
unfolding start_drag
start_idle z n i idle = ground arith

module _ {ℓ} {A : Type ℓ} where
  clamped_length :
      (r : Range) (points : List A)
      → r.0 < r.1
      → 2 ≤ length points
      → let (lo, end) = clamp_range (length points) r in
        (2 ≤ length (slice lo end points)) × (length (slice lo end points) ≤ length points)
  unfolding clamp_range
  clamped_length r points apart two =
      let here =
        length-slice (min r.0 (length points - 2)) (min (r.1 + 1) (length points)) points in
      (omega (arith, here), omega (arith, here))

  display_points-of_wide :
      (z : ZoomState) (points : List A)
      → IsWide z
      → 2 ≤ length points
      → (2 ≤ length (display_points z points)) × (length (display_points z points) ≤ length points)
  unfolding display_points
  display_points-of_wide z points wide two = elim (Option-cases z.zoom_range) [
    | inl full ↦ rw (full, display_points) (two, omega arith)
    | inr (r, zoomed) ↦ rw (zoomed, display_points) (clamped_length r points (wide r zoomed) two)
  ]

  -- Whatever drags and resets came before, over series of whatever lengths, a chart of a series of
  -- at least two points shows at least two of them, and never more than there are.
  display_points_bounds :
      (events : List ZoomEvent) (points : List A)
      → 2 ≤ length points
      → let shown = display_points (zoom_steps initial_zoom events) points in
        (2 ≤ length shown) × (length shown ≤ length points)
  display_points_bounds events points two =
      display_points-of_wide (zoom_steps initial_zoom events) points
        (zoom_steps-IsWide initial_zoom events (λ r h. cc)) two

  -- A whole drag over the chart as it is shown.
  abbrev pub drag : ℕ → ℕ → List A → ZoomState → ZoomState
  drag i j points z = finish (update_drag (length points) j (start_drag (length points) i z))

  drag_range :
      (z : ZoomState) (points : List A) (i j : ℕ)
      → z.drag_start_local ≡ none
      → i ≢ j
      → (drag i j points z).zoom_range
        ≡ some (base_offset z (length points) + min i j, base_offset z (length points) + max i j)
  unfolding update_drag finish base_offset
  drag_range z points i j idle h =
      let differ : (i == j) ≡ false = ground arith in
      ap (λ s. (finish (update_drag (length points) j s)).zoom_range)
        (start_idle z (length points) i idle)
      ∙ rw (differ, finish) (rw differ)

  display_points-zoomed :
      (z : ZoomState) (points : List A) (lo hi : ℕ)
      → z.zoom_range ≡ some (lo, hi)
      → lo < hi
      → hi < length points
      → display_points z points ≡ slice lo (hi + 1) points
  unfolding display_points
  display_points-zoomed z points lo hi zoomed h k =
      rw (zoomed, display_points)
        (ap (λ (r : ℕ × ℕ). slice r.0 r.1 points) (clamp_exact (length points) lo hi h k))

  -- What a chart shows is one stretch of the series, from the base offset on.
  record Window (z : ZoomState) (points : List A) : Type ℓ where
    end : ℕ
    within : end ≤ length points
    shows : display_points z points ≡ slice (base_offset z (length points)) end points

  Window-of : (z : ZoomState) (points : List A) → Window z points
  unfolding display_points base_offset clamp_range
  Window-of z points = elim (Option-cases z.zoom_range) [
    | inl full ↦ record {
      end = length points;
      within = omega arith;
      shows =
          rw (full, display_points, base_offset)
            (sym (take_of_length_le (length points) points (omega arith)));
    }
    | inr (r, zoomed) ↦ record {
      end = min (r.1 + 1) (length points);
      within = omega arith;
      shows = rw (zoomed, display_points, base_offset) refl;
    }
  ]

  -- A drag over two points of a chart shows exactly the part between them, both included, of what
  -- the chart showed, also when it was zoomed already. No drag is under way before, the pointer stays within the chart and the
  -- series does not change meanwhile.
  pub display_points-drag :
      (z : ZoomState) (points : List A) (i j : ℕ)
      → z.drag_start_local ≡ none
      → i ≢ j
      → i < length (display_points z points)
      → j < length (display_points z points)
      → display_points (drag i j points z) points
        ≡ slice (min i j) (max i j + 1) (display_points z points)
  display_points-drag z points i j idle differ in_i in_j =
      let w = Window-of z points in
      let base = base_offset z (length points) in
      let room : length (display_points z points) ≡ min w.end (length points) - base =
        ap length w.shows ∙ length-slice base w.end points in
      let fits = w.within in
      display_points-zoomed (drag i j points z) points (base + min i j) (base + max i j)
        (drag_range z points i j idle differ) (omega arith) (omega arith)
      ∙ (ap (λ k. slice (base + min i j) k points) (omega arith)
          ∙ (sym (slice-slice base w.end (min i j) (max i j + 1) points (omega arith))
              ∙ ap (slice (min i j) (max i j + 1)) (sym w.shows)))

  get_elem?-is_some :
      (points : List A) (k : ℕ) → k < length points → (a : A) × (get_elem? points k ≡ some a)
  get_elem?-is_some [] k h = elim h [ ]
  get_elem?-is_some (x ∷ xs) zero h = (x, refl)
  get_elem?-is_some (x ∷ xs) (suc k) h = get_elem?-is_some xs k (omega arith)

  last_before-is_some :
      (points : List A) (k : ℕ)
      → 0 < k
      → k ≤ length points
      → (a : A) × (last_before k points ≡ some a)
  last_before-is_some points zero h g = elim h [ ]
  last_before-is_some points (suc k) h g = get_elem?-is_some points k (omega arith)

  -- The label of a zoomed chart reads two points of the series. Both are there if the series has a
  -- point; of an empty series both are `undefined`, and reading their labels throws.
  pub label_ends-zoomed :
      (z : ZoomState) (points : List A) (r : Range)
      → z.zoom_range ≡ some r
      → ((points ≡ []) × (label_ends z points ≡ some (none, none)))
        ⊎ ((a b : A) × (label_ends z points ≡ some (some a, some b)))
  unfolding label_ends clamp_range
  label_ends-zoomed z [] r zoomed = inl (
    refl,
    rw (zoomed, label_ends)
        (ap (λ k. some (none, last_before k [])) {x = min (r.1 + 1) 0} {y = 0} (omega arith)),
  )
  label_ends-zoomed z (x ∷ xs) r zoomed =
      let n = length (x ∷ xs) in
      let (a, first) = get_elem?-is_some (x ∷ xs) (min r.0 (n - 2)) (omega arith) in
      let (b, last) = last_before-is_some (x ∷ xs) (min (r.1 + 1) n) (omega arith) (omega arith) in
      inr (a, b, rw (zoomed, label_ends) (ap₂ (λ p q. some (p, q)) first last))
