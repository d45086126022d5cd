-- ===== src/Charts/Axis/Laws.antt =====
-- The labels of the axis. `Math.round` divides by the number of gaps, which is one to five.
use openscale.Base.{ℕ, zero, suc, ◌+◌, ◌-◌, ◌*◌, ◌<◌, ◌≤◌, ◌≡◌, arith}
use openscale.Charts.Axis.{label_count, round_div, label_index}

round_div-lt : (g x m : ℕ) → 0 < g → g ≤ 5 → g ≤ m → round_div x g < round_div (x + m) g
round_div-lt zero x m pos few h = omega arith
round_div-lt (suc zero) x m pos few h = omega arith
round_div-lt (suc (suc zero)) x m pos few h = omega arith
round_div-lt (suc (suc (suc zero))) x m pos few h = omega arith
round_div-lt (suc (suc (suc (suc zero)))) x m pos few h = omega arith
round_div-lt (suc (suc (suc (suc (suc zero))))) x m pos few h = omega arith
round_div-lt (suc (suc (suc (suc (suc (suc g)))))) x m pos few h = omega arith

round_div-zero : (g m : ℕ) → 0 < g → g ≤ 5 → round_div (0 * m) g ≡ 0
round_div-zero zero m pos few = omega arith
round_div-zero (suc zero) m pos few = omega arith
round_div-zero (suc (suc zero)) m pos few = omega arith
round_div-zero (suc (suc (suc zero))) m pos few = omega arith
round_div-zero (suc (suc (suc (suc zero)))) m pos few = omega arith
round_div-zero (suc (suc (suc (suc (suc zero))))) m pos few = omega arith
round_div-zero (suc (suc (suc (suc (suc (suc g)))))) m pos few = omega arith

round_div-cancel : (g m : ℕ) → 0 < g → g ≤ 5 → round_div (g * m) g ≡ m
round_div-cancel zero m pos few = omega arith
round_div-cancel (suc zero) m pos few = omega arith
round_div-cancel (suc (suc zero)) m pos few = omega arith
round_div-cancel (suc (suc (suc zero))) m pos few = omega arith
round_div-cancel (suc (suc (suc (suc zero)))) m pos few = omega arith
round_div-cancel (suc (suc (suc (suc (suc zero))))) m pos few = omega arith
round_div-cancel (suc (suc (suc (suc (suc (suc g)))))) m pos few = omega arith

-- The labels are of distinct points in order, the first and the last point among them.
label_index_spread :
    (n i : ℕ)
    → 2 ≤ n
    → i + 1 < label_count n
    → (label_index n 0 ≡ 0)
      × (label_index n (label_count n - 1) ≡ n - 1)
      × (label_index n i < label_index n (i + 1))
unfolding label_index
label_index_spread n i two h =
    let g = label_count n - 1 in
    let m = n - 1 in
    let next : (i + 1) * m ≡ i * m + m = omega arith in
    (
      round_div-zero g m (omega arith) (omega arith),
      round_div-cancel g m (omega arith) (omega arith),
      rw next (round_div-lt g (i * m) m (omega arith) (omega arith) (omega arith)),
    )
