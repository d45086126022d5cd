-- ===== src/Charts/Console/Fits.antt =====
-- What the whole chart draws stays within it.
use openscale.Base.{ℕ, ◌+◌, ◌*◌, ◌≤◌, ◌<◌, List, [], ◌∷◌, Option, none, some, Bool, All, Text, ◌≡◌}
use openscale.Charts.Console.{ConsoleBarDatum, pc, Plot}
use openscale.Charts.Console.Drawn.{AreaPoint, LedgerRow, Chart, rows, plots}
use openscale.Appearance.Settings.{ChartVariant, area, ledger}
use openscale.Charts.Console.Marks.{AtMostFull, Fits}

abbrev pub AreaShape : Type 0
AreaShape = Option (List AreaPoint × List AreaPoint)

abbrev pub IsDrawn : AreaShape → Type 0
IsDrawn none = ⊥
IsDrawn (some shape) = Unit

-- One mark for each datum, under its label, unless the area is drawn in their place.
abbrev pub FitsMarks : AreaShape → ℕ → List ConsoleBarDatum → List (Text × Option Plot) → Type 0
FitsMarks shape top [] [] = Unit
FitsMarks shape top [] (m ∷ ms) = ⊥
FitsMarks shape top (d ∷ ds) [] = ⊥
FitsMarks shape top (d ∷ ds) ((label, none) ∷ ms) =
    IsDrawn shape × (label ≡ d.label) × FitsMarks shape top ds ms
FitsMarks shape top (d ∷ ds) ((label, some p) ∷ ms) =
    (label ≡ d.label) × Fits top d p × FitsMarks shape top ds ms

abbrev pub IsInside : AreaPoint → Type 0
IsInside p = AtMostFull p.x × AtMostFull p.height

abbrev pub FitsArea : AreaShape → Type 0
FitsArea none = Unit
FitsArea (some (sums, seconds)) = All IsInside sums × All IsInside seconds

-- The two bars of a row, one behind the other, are no wider than the row.
abbrev pub FitsRow : LedgerRow → Type 0
FitsRow r =
    (0 < r.width_a.den)
    × (r.width_a.den ≡ r.width_b.den)
    × (r.width_a.num + r.width_b.num ≤ 100 * r.width_a.den)

abbrev pub FitsChart : ℕ → List ConsoleBarDatum → Chart → Type 0
FitsChart top series (rows rs) = All FitsRow rs
FitsChart top series (plots axis shape marks) = FitsArea shape × FitsMarks shape top series marks

-- The sums of a list under a bound.
abbrev IsUnder : ℕ → List ConsoleBarDatum → Type 0
IsUnder top series = All (λ d. d.a + d.b ≤ top) series

abbrev Missing : AreaShape → Option Plot → Type 0
Missing shape none = IsDrawn shape
Missing shape (some p) = Unit

-- The styles that the plots leave out want the area.
abbrev HasArea : ChartVariant → AreaShape → Type 0
HasArea area shape = IsDrawn shape
HasArea ledger shape = IsDrawn shape
HasArea _ shape = Unit

abbrev row_of : Bool → ℕ → ConsoleBarDatum → LedgerRow
row_of grown top d = record {
  label = d.label;
  width_a = pc grown ledger top d.a;
  width_b = pc grown ledger top d.b;
  total = d.a + d.b;
}
