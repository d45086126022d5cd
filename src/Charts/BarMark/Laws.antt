-- ===== src/Charts/BarMark/Laws.antt =====
-- The two orientations of a bar.
use openscale.Base.{◌+◌, ◌%◌, Text, Bool, map, ◌≡◌, refl}
use openscale.Appearance.Settings.{
  ChartVariant, hatch, grid, paired, lollipop, area, block, split, ticks, capsule, ledger, ghost,
}
use openscale.Charts.BarMark.{bar_mark}
use openscale.Charts.BarMark.Styles.{
  Side, top, bottom, left, right, Extent, width, height, Place, start, center, end, Paint, plain,
  stripes, stripes_to, Animated, size_of, side_of, Style, absolute, relative, flex, overflow_hidden,
  inset_zero, offset, size, square, max_size, place, opacity, radius, background, transition,
  inset_shadow, translate, Box, box, Boxes, nothing, boxes, vertical, horizontal,
}

-- A quarter turn clockwise.
abbrev pub turn_side : Side → Side
turn_side top = right
turn_side right = bottom
turn_side bottom = left
turn_side left = top

abbrev pub turn_extent : Extent → Extent
turn_extent width = height
turn_extent height = width

abbrev pub turn_paint : Paint → Paint
turn_paint (plain color) = plain color
turn_paint (stripes angle color) = stripes ((angle + 90) % 360) color
turn_paint (stripes_to side color) = stripes_to (turn_side side) color

abbrev pub turn_animated : Animated → Animated
turn_animated (size_of e) = size_of (turn_extent e)
turn_animated (side_of s) = side_of (turn_side s)

-- What is placed from top to bottom is then placed from right to left.
abbrev pub turn_place : Place → Place
turn_place start = end
turn_place center = center
turn_place end = start

abbrev pub turn_style : Style → Style
turn_style (offset side amount) = offset (turn_side side) amount
turn_style (size extent amount) = size (turn_extent extent) amount
turn_style (max_size extent amount) = max_size (turn_extent extent) amount
turn_style (place align justify) = place justify (turn_place align)
turn_style (background paint) = background (turn_paint paint)
turn_style (transition animated rest) = transition (turn_animated animated) rest
turn_style (inset_shadow side amount) = inset_shadow (turn_side side) amount
turn_style (translate side amount) = translate (turn_side side) amount
turn_style (opacity amount) = opacity amount
turn_style (radius amount) = radius amount
turn_style (square amount) = square amount
turn_style absolute = absolute
turn_style relative = relative
turn_style flex = flex
turn_style overflow_hidden = overflow_hidden
turn_style inset_zero = inset_zero

mutual
  pub turn : Box → Box
  turn (box styles children) = box (map turn_style styles) (turn_all children)

  pub turn_all : Boxes → Boxes
  turn_all nothing = nothing
  turn_all (boxes b bs) = boxes (turn b) (turn_all bs)

-- In every variant, a bar of a horizontal chart is the bar of a vertical chart of the same colour,
-- fill and dimming turned by a quarter: sides, sizes, placing, gradients, shadows, shifts and
-- transitions of all its boxes.
pub bar_mark-turn {ℓ} :
    {Number : Type ℓ} (text : Number → Text) (variant : ChartVariant) (color_var : Text)
    (pct : Number) (dimmed : Bool)
    → bar_mark text variant color_var pct dimmed horizontal
      ≡ turn (bar_mark text variant color_var pct dimmed vertical)
unfolding bar_mark turn
bar_mark-turn text hatch color_var pct dimmed = refl
bar_mark-turn text grid color_var pct dimmed = refl
bar_mark-turn text paired color_var pct dimmed = refl
bar_mark-turn text lollipop color_var pct dimmed = refl
bar_mark-turn text area color_var pct dimmed = refl
bar_mark-turn text block color_var pct dimmed = refl
bar_mark-turn text split color_var pct dimmed = refl
bar_mark-turn text ticks color_var pct dimmed = refl
bar_mark-turn text capsule color_var pct dimmed = refl
bar_mark-turn text ledger color_var pct dimmed = refl
bar_mark-turn text ghost color_var pct dimmed = refl
