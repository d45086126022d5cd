-- ===== src/Charts/Console/Mirror.antt =====
-- The mirrored chart against its axis.
use openscale.Base.{
  ℕ, ◌+◌, ◌*◌, ◌/◌, ◌≤◌, ◌<◌, some, true, leb, ltb, get_elem?, ◌≡◌, ◌⊎◌, inl, inr, refl, ap,
  Bool-cases, arith,
}
use openscale.Charts.Console.{half_height, axis_values}
use openscale.Appearance.Settings.{split}

-- In the mirrored chart the axis ends, up and down, at half the ceiling, to the nearest whole number.
-- A value below half the ceiling has its height in proportion, short of full; every value of half the
-- ceiling or more, also the ceiling itself, is drawn alike, as a bar of full height.
pub half_height_clips :
    (top tick_count n : ℕ)
    → 0 < top
    → (let ends = (top + 1) / 2 in
        (get_elem? (axis_values split top tick_count) 0 ≡ some ends)
        × (get_elem? (axis_values split top tick_count) 4 ≡ some ends))
      × ((let p = half_height true top n in
            (2 * n < top) × (p.num * top ≡ 200 * n * p.den) × (p.num < 100 * p.den))
          ⊎ (let p = half_height true top n in (top ≤ 2 * n) × (p.num ≡ 100 * p.den)))
unfolding half_height axis_values
half_height_clips top tick_count n p = (
  (ap some (omega arith), ap some (omega arith)),
  elim (Bool-cases (leb (200 * n) (100 * top))) [
    | inl e ↦ rw e (elim (Bool-cases (ltb (2 * n) top)) [
      | inl c ↦ inl (ground arith, refl, ground arith)
      | inr c ↦ inr (ground arith, ground arith)
    ])
    | inr e ↦ rw e (inr (ground arith, omega arith))
  ],
)
