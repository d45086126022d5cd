-- ===== src/Charts/Bars/Laws.antt =====
-- The bars of a chart are within it, and their heights compare as their values do.
use openscale.Base.{
  ℕ, suc, ◌*◌, ◌≤◌, ◌<◌, List, [], ◌∷◌, Option, none, some, Bool, false, leb, not, ◌==◌, ◌&&◌,
  is_some, ◌≡◌, refl, inl, inr, Bool-cases, arith,
}
use openscale.Charts.Console.{Percent}
use openscale.Charts.Bars.{
  BarPoint, max_value, bar_pct, Row, rows_from, horizontal_bar_chart, is_hovered,
}

max_value-pos : (points : List BarPoint) → 0 < max_value points
unfolding max_value
max_value-pos [] = omega arith
max_value-pos (p ∷ ps) = omega (arith, max_value-pos ps)

-- From 2% to 100%.
abbrev pub IsBar : Percent → Type 0
IsBar p = (0 < p.den) × (2 * p.den ≤ p.num) × (p.num ≤ 100 * p.den)

bar_pct-IsBar : (most value : ℕ) → 0 < most → value ≤ most → IsBar (bar_pct most value)
unfolding bar_pct
bar_pct-IsBar most value p h = elim (Bool-cases (leb (100 * value) (2 * most))) [
  | inl e ↦ rw e (omega arith)
  | inr e ↦ rw e (p, ground arith, omega arith)
]

-- `p` is at most `q`, as fractions.
abbrev pub AtMost : Percent → Percent → Type 0
AtMost p q = p.num * q.den ≤ q.num * p.den

mul_mono_right : (k v w : ℕ) → v ≤ w → 100 * v * k ≤ 100 * w * k
mul_mono_right k v w h = grind arith

bar_pct_mono : (most v w : ℕ) → 0 < most → v ≤ w → AtMost (bar_pct most v) (bar_pct most w)
unfolding bar_pct
bar_pct_mono most v w p h = elim (Bool-cases (leb (100 * v) (2 * most))) [
  | inl e ↦ elim (Bool-cases (leb (100 * w) (2 * most))) [
    | inl f ↦ rw (e, f) (omega arith)
    | inr f ↦ rw (e, f) (ground arith)
  ]
  | inr e ↦
      let f : leb (100 * w) (2 * most) ≡ false = ground arith in
      rw (e, f) (mul_mono_right most v w h)
]

pub record IsRow (most : ℕ) (hover : Option ℕ) (i : ℕ) (p : BarPoint) (r : Row) : Type 0 where
  pub label : r.label ≡ p.label
  pub value : r.value ≡ p.value
  pub bar : IsBar r.pct
  -- No bar of a value that is at most this one's is longer.
  pub ordered : (v : ℕ) → v ≤ p.value → AtMost (bar_pct most v) r.pct
  pub hovered : r.hovered ≡ is_hovered hover i
  pub dimmed : r.is_dimmed ≡ (is_some hover && not r.hovered)

-- One row for each point, in order, from the index `i` on.
abbrev pub AreRows : ℕ → Option ℕ → ℕ → List BarPoint → List Row → Type 0
AreRows most hover i [] [] = Unit
AreRows most hover i (p ∷ ps) (r ∷ rs) = IsRow most hover i p r × AreRows most hover (suc i) ps rs
AreRows most hover i [] (r ∷ rs) = ⊥
AreRows most hover i (p ∷ ps) [] = ⊥

dimmed-hover :
    (hover : Option ℕ) (i : ℕ)
    → (elim hover as (λ _. Bool) [ none ↦ false | some j ↦ not (j == i) ])
      ≡ (is_some hover && not (is_hovered hover i))
dimmed-hover none i = refl
dimmed-hover (some j) i = refl

rows_from-AreRows :
    (most : ℕ) (hover : Option ℕ) (i : ℕ) (points : List BarPoint)
    → 0 < most
    → max_value points ≤ most
    → AreRows most hover i points (rows_from hover most i points)
unfolding max_value
rows_from-AreRows most hover i [] p h = tt
rows_from-AreRows most hover i (q ∷ qs) p h = (
  record {
    label = refl;
    value = refl;
    bar = bar_pct-IsBar most q.value p (omega arith);
    ordered = λ v le. bar_pct_mono most v q.value p le;
    hovered = refl;
    dimmed = dimmed-hover hover i;
  },
  rows_from-AreRows most hover (suc i) qs p (omega arith),
)

-- The leaderboard has a row for each point, in order, with its label and value; its bar is between 2%
-- and 100% long and no shorter than the bar of a smaller value; the row under the pointer is marked,
-- and all others are dimmed while there is one.
horizontal_bar_chart-AreRows :
    (hover : Option ℕ) (points : List BarPoint)
    → AreRows (max_value points) hover 0 points (horizontal_bar_chart hover points)
unfolding horizontal_bar_chart
horizontal_bar_chart-AreRows hover points =
    rows_from-AreRows (max_value points) hover 0 points (max_value-pos points) (omega arith)
