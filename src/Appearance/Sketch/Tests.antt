-- ===== src/Appearance/Sketch/Tests.antt =====
-- Every sketch lies within its picture.
use openscale.Base.{ℕ, ◌+◌, ◌&&◌, Bool, true, all, leb, ◌≡◌, refl}
use openscale.Appearance.Settings.{
  ChartVariant, hatch, grid, paired, lollipop, area, block, split, ticks, capsule, ledger, ghost,
}
use openscale.Appearance.Sketch.{
  Shape, rect, circle, polygon, line, column_rects, extra, chart_sketch,
}

abbrev is_point : ℕ × ℕ → Bool
is_point (x, y) = leb x 580 && leb y 280

abbrev is_inside : Shape → Bool
is_inside (rect x y w h fill rx) = leb (x + w) 580 && leb (y + h) 280
is_inside (circle x y r fill) = leb r x && (leb r y && (leb (x + r) 580 && leb (y + r) 280))
is_inside (polygon points fill) = all is_point points
is_inside (line points) = all is_point points

sketches_inside : (style : ChartVariant) → all is_inside (chart_sketch style) ≡ true
unfolding chart_sketch column_rects extra
sketches_inside hatch = refl
sketches_inside grid = refl
sketches_inside paired = refl
sketches_inside lollipop = refl
sketches_inside area = refl
sketches_inside block = refl
sketches_inside split = refl
sketches_inside ticks = refl
sketches_inside capsule = refl
sketches_inside ledger = refl
sketches_inside ghost = refl
