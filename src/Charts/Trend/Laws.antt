-- ===== src/Charts/Trend/Laws.antt =====
-- The line stays within the padding, and the staircase goes through the same points.
use openscale.Base.{
  min, max, ℕ, suc, ◌+◌, ◌-◌, ◌*◌, ◌≤◌, ◌<◌, List, [], ◌∷◌, ◌==◌, All, length, ◌≡◌, ◌⊎◌, inl, inr,
  refl, ap, Bool-cases, arith,
}
use openscale.Charts.Bars.{BarPoint}
use openscale.Charts.Trend.{
  Coord, steps_after, to_step_points, min_of, max_of, range_of, y_at, x_at, coords_from, coords,
  viewbox_width,
}

-- Each part of the line goes along one axis.
abbrev pub IsStaircase : Coord → List Coord → Type 0
IsStaircase c [] = Unit
IsStaircase c (d ∷ ds) = ((c.x ≡ d.x) ⊎ (c.y ≡ d.y)) × IsStaircase d ds

-- Every second point, the first included.
abbrev pub every_second : List Coord → List Coord
every_second [] = []
every_second (c ∷ []) = c ∷ []
every_second (c ∷ d ∷ cs) = c ∷ every_second cs

steps_after-IsStaircase : (c : Coord) (cs : List Coord) → IsStaircase c (steps_after c.y cs)
steps_after-IsStaircase c [] = tt
steps_after-IsStaircase c (d ∷ ds) = (inr refl, (inl refl, steps_after-IsStaircase d ds))

steps_after-second : (c : Coord) (cs : List Coord) → every_second (c ∷ steps_after c.y cs) ≡ c ∷ cs
steps_after-second c [] = refl
steps_after-second c (d ∷ ds) = ap (◌∷◌ c) (steps_after-second d ds)

-- The line of the `block` style goes along one axis in each part, and every second of its points,
-- the first included, is a point of the series, in order and all of them.
to_step_points_lem :
    (c : Coord) (cs : List Coord)
    → (IsStaircase c (steps_after c.y cs)) × (every_second (to_step_points (c ∷ cs)) ≡ c ∷ cs)
unfolding to_step_points
to_step_points_lem c cs = (steps_after-IsStaircase c cs, steps_after-second c cs)

-- Within the width, and from 12% to 88% of the height.
pub record IsWithin (h : ℕ) (c : Coord) : Type 0 where
  pub x_den : 0 < c.x.den
  pub x_ge : c.x.less ≤ c.x.num
  pub x_le : c.x.num ≤ viewbox_width * c.x.den + c.x.less
  pub y_den : 0 < c.y.den
  pub y_ge : 12 * h * c.y.den + 100 * c.y.less ≤ 100 * c.y.num
  pub y_le : 100 * c.y.num ≤ 88 * h * c.y.den + 100 * c.y.less

mul_le : (h w r : ℕ) → w ≤ r → h * w ≤ h * r
mul_le h w r e = grind arith

y_le_lem :
    (h lo r v : ℕ)
    → lo ≤ v
    → 100 * (h * (12 * r) + h * 76 * (r + lo)) ≤ 88 * h * (100 * r) + 100 * (h * 76 * v)
y_le_lem h lo r v e = omega (arith, mul_le h lo v e)

y_ge_lem :
    (h lo r v : ℕ)
    → v ≤ r + lo
    → 12 * h * (100 * r) + 100 * (h * 76 * v) ≤ 100 * (h * (12 * r) + h * 76 * (r + lo))
y_ge_lem h lo r v e = omega (arith, mul_le h v (r + lo) e)

x_at-within :
    (n i : ℕ) → i < n → (0 < (x_at n i).den) × ((x_at n i).num ≤ viewbox_width * (x_at n i).den)
x_at-within n i k = elim (Bool-cases ((n - 1) == 0)) [
  | inl e ↦ rw e (omega arith, ground arith)
  | inr e ↦ rw e (ground arith, omega arith)
]

IsWithin-at :
    (h n lo range i value : ℕ)
    → 0 < range
    → (lo ≤ value) × (value ≤ range + lo)
    → i < n
    → IsWithin h (record { x = x_at n i; y = y_at h lo range value })
IsWithin-at h n lo range i value p v k =
    let x = x_at-within n i k in
    record {
      x_den = x.0;
      x_ge = omega arith;
      x_le = omega (arith, x.1);
      y_den = omega arith;
      y_ge = y_ge_lem h lo range value v.1;
      y_le = y_le_lem h lo range value v.0;
    }

-- All values lie between two bounds.
abbrev AreBetween : ℕ → ℕ → List BarPoint → Type 0
AreBetween lo hi points = All (λ p. (lo ≤ p.value) × (p.value ≤ hi)) points

coords_from-IsWithin :
    (h n lo range i : ℕ) (points : List BarPoint)
    → 0 < range
    → AreBetween lo (range + lo) points
    → i + length points ≤ n
    → All (IsWithin h) (coords_from h n lo range i points)
coords_from-IsWithin h n lo range i [] p v k = tt
coords_from-IsWithin h n lo range i (q ∷ qs) p v k = (
  IsWithin-at h n lo range i q.value p v.0 (omega arith),
  coords_from-IsWithin h n lo range (suc i) qs p v.1 (omega arith),
)

range_of-pos : (lo hi : ℕ) → 0 < range_of lo hi
range_of-pos lo hi = ground arith

range_of-covers : (lo hi : ℕ) → hi ≤ range_of lo hi + lo
range_of-covers lo hi = ground arith

widen :
    (lo lo' hi hi' : ℕ) (points : List BarPoint)
    → lo' ≤ lo
    → hi ≤ hi'
    → AreBetween lo hi points
    → AreBetween lo' hi' points
widen lo lo' hi hi' [] l h b = tt
widen lo lo' hi hi' (p ∷ ps) l h b =
    ((omega (arith, b.0), omega (arith, b.0)), widen lo lo' hi hi' ps l h b.1)

-- The least and the greatest value are bounds.
extremes_bound :
    (p : BarPoint) (ps : List BarPoint)
    → AreBetween (min_of p.value ps) (max_of p.value ps) (p ∷ ps)
unfolding min_of max_of
extremes_bound p [] = ((omega arith, omega arith), tt)
extremes_bound p (q ∷ qs) =
    let lo = min_of q.value qs in
    let hi = max_of q.value qs in
    (
      (omega arith, omega arith),
      widen lo (min p.value lo) hi (max p.value hi) (q ∷ qs) (omega arith) (omega arith)
          (extremes_bound q qs),
    )

-- Every point of the line is drawn within the width of the chart and between 12% and 88% of its
-- height, also where all values are the same.
pub coords-IsWithin : (h : ℕ) (points : List BarPoint) → All (IsWithin h) (coords h points)
unfolding coords
coords-IsWithin h [] = tt
coords-IsWithin h (p ∷ ps) =
    let lo = min_of p.value ps in
    let hi = max_of p.value ps in
    let range = range_of lo hi in
    coords_from-IsWithin h (length (p ∷ ps)) lo range 0 (p ∷ ps) (range_of-pos lo hi)
      (widen lo lo hi (range + lo) (p ∷ ps) (omega arith) (range_of-covers lo hi)
        (extremes_bound p ps))
      (omega arith)
