-- ===== src/Appearance/Sketch.antt =====
-- frontend/src/domains/connections/ui/ChartStylePicker.tsx: the sketch of each chart style. Lengths are in
-- tenths of the picture's unit, which is 58 units wide and 28 high.
mod Tests
use openscale.Base.{
  ℕ, zero, suc, ◌+◌, ◌-◌, ◌*◌, max, List, [], ◌∷◌, ◌++◌, Bool, true, false, ltb, if◌then◌else◌,
}
use openscale.Charts.Axis.{round_div}
use openscale.Appearance.Settings.{
  ChartVariant, hatch, grid, paired, lollipop, area, block, split, ticks, capsule, ledger, ghost,
}

pub data Fill : Type 0 where
  primary secondary track : Fill

-- `rect` has x, y, width, height, fill and radius; a polygon and a line have their points.
pub data Shape : Type 0 where
  rect : ℕ → ℕ → ℕ → ℕ → Fill → ℕ → Shape
  circle : ℕ → ℕ → ℕ → Fill → Shape
  polygon : List (ℕ × ℕ) → Fill → Shape
  line : List (ℕ × ℕ) → Shape

-- `COLS`
abbrev pub cols : List (ℕ × ℕ)
cols = (9, 7) ∷ (14, 5) ∷ (7, 10) ∷ (17, 4) ∷ (11, 8) ∷ []

-- The segments from the `k`-th on, with `n` of them left.
abbrev pub segments : ℕ → ℕ → ℕ → ℕ → ℕ → List Shape
segments x on bot k zero = []
segments x on bot k (suc n) =
    rect x (220 - k * 40) 70 26
      (if ltb k bot then secondary else if ltb k on then primary else track) 8
    ∷ segments x on bot (suc k) n

-- The rectangles of one column, at `x` and with its two numbers.
unfoldable pub column_rects : ChartVariant → ℕ → ℕ → ℕ → List Shape
column_rects paired x a b =
    rect x (260 - 10 * a) 34 (10 * a) primary 10
    ∷ rect (x + 42) (260 - 10 * b) 34 (10 * b) secondary 10
    ∷ []
column_rects split x a b =
    rect x (130 - 5 * a) 70 (5 * a) primary 10 ∷ rect x 140 70 (5 * b) secondary 10 ∷ []
column_rects ticks x a b = segments x (round_div (6 * (a + b)) 24) (round_div (6 * b) 24) 0 6
column_rects capsule x a b =
    rect (x + 5) 20 60 240 track 30
    ∷ rect (x + 5) (260 - 10 * (a + b)) 60 (10 * a) primary 30
    ∷ rect (x + 5) (260 - 10 * b) 60 (10 * b) secondary 30
    ∷ []
column_rects ghost x a b =
    rect (x + 5) (260 - 10 * (a + b)) 60 (10 * (a + b)) track 10
    ∷ rect (x + 5) (260 - 10 * (a + b)) 60 24 primary 10
    ∷ []
column_rects block x a b =
    rect (x - 10) (260 - 10 * (a + b)) 110 (10 * a) primary 0
    ∷ rect (x - 10) (260 - 10 * b) 110 (10 * b) secondary 0
    ∷ []
column_rects grid x a b =
    rect (x + 20) (260 - 10 * (a + b)) 30 (10 * a) primary 10
    ∷ rect (x + 20) (260 - 10 * b) 30 (10 * b) secondary 10
    ∷ []
column_rects hatch x a b =
    rect x (260 - 10 * (a + b)) 75 (10 * a) primary 15
    ∷ rect x (260 - 10 * b) 75 (10 * b) secondary 15
    ∷ []
column_rects lollipop x a b = []
column_rects area x a b = []
column_rects ledger x a b = []

-- What `f` draws for each column, the `i`-th being the first.
abbrev pub each_column : (ℕ → ℕ → ℕ → List Shape) → ℕ → List (ℕ × ℕ) → List Shape
each_column f i [] = []
each_column f i ((a, b) ∷ cs) = f (20 + 115 * i) a b ++ each_column f (suc i) cs

abbrev pub points_of : (ℕ → ℕ → ℕ) → ℕ → List (ℕ × ℕ) → List (ℕ × ℕ)
points_of pick i [] = []
points_of pick i ((a, b) ∷ cs) =
    (20 + 115 * i + 30, 260 - 10 * pick a b) ∷ points_of pick (suc i) cs

abbrev pub stem_and_dots : ℕ → ℕ → ℕ → List Shape
stem_and_dots x a b =
    rect (x + 30) (260 - 10 * (a + b)) 12 (10 * (a + b)) primary 10
    ∷ circle (x + 36) (260 - 10 * (a + b)) 22 primary
    ∷ circle (x + 36) 250 17 secondary
    ∷ []

-- A row of the ledger, at `y`.
abbrev pub ledger_row : ℕ → ℕ → ℕ → List Shape
ledger_row y a b =
    rect 20 y 540 40 track 20
    ∷ rect 20 y (16 * a) 40 primary 20
    ∷ rect (20 + 16 * a) y (12 * b) 40 secondary 20
    ∷ []

-- `extra`
unfoldable pub extra : ChartVariant → List Shape
extra lollipop = each_column stem_and_dots 0 cols
extra area =
    polygon ((50, 260) ∷ points_of (λ a b. a + b) 0 cols ++ (510, 260) ∷ []) primary
    ∷ polygon ((50, 260) ∷ points_of (λ a b. b) 0 cols ++ (510, 260) ∷ []) secondary
    ∷ line (points_of (λ a b. a + b) 0 cols)
    ∷ []
extra ledger = ledger_row 50 16 8 ++ (ledger_row 130 12 6 ++ ledger_row 210 20 5)
extra _ = []

-- `Math.max(r.h, 0.5)`
abbrev pub not_flat : Shape → Shape
not_flat (rect x y w h fill rx) = rect x y w (max h 5) fill rx
not_flat s = s

abbrev pub drawn : List Shape → List Shape
drawn [] = []
drawn (s ∷ ss) = not_flat s ∷ drawn ss

-- The rectangles, the rest, and the line at the base.
unfoldable pub chart_sketch : ChartVariant → List Shape
unfolding column_rects extra
chart_sketch variant =
    drawn (each_column (column_rects variant) 0 cols)
    ++ (extra variant ++ rect 0 266 580 8 track 0 ∷ [])
