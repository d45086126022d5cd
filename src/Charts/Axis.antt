-- ===== src/Charts/Axis.antt =====
-- frontend/src/domains/dashboards/ui/charts/TrendChart.tsx: which points label the axis.
mod Laws
mod Tests
use openscale.Base.{ℕ, ◌+◌, ◌-◌, ◌*◌, ◌/◌, ◌<◌, min}

-- `Math.min(6, displayPoints.length)`
abbrev pub label_count : ℕ → ℕ
label_count n = min 6 n

-- `Math.round(a / b)` for numbers of that size: half is rounded up.
abbrev pub round_div : ℕ → ℕ → ℕ
round_div a b = (2 * a + b) / (2 * b)

-- The `i`-th index of `labelIndices`, `Math.round((i * (n - 1)) / (labelCount - 1))`, for a chart
-- of at least two points.
unfoldable pub label_index : ℕ → ℕ → ℕ
label_index n i = round_div (i * (n - 1)) (label_count n - 1)
