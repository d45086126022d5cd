-- ===== src/Charts/BarMark.antt =====
-- frontend/src/domains/dashboards/ui/charts/BarMark.tsx: the boxes that one bar is drawn with, with all
-- their styles. The angle -60deg is written 300.
pub mod Styles
mod Laws
mod Tests
use openscale.Base.{ℕ, Text, codes, List, [], ◌∷◌, ◌++◌, Bool, true, false, if◌then◌else◌}
use openscale.Appearance.Settings.{
  ChartVariant, hatch, grid, paired, lollipop, area, block, split, ticks, capsule, ledger, ghost,
}
use openscale.Charts.BarMark.Styles.{
  Side, top, bottom, left, right, Extent, width, height, Place, start, center, end, Paint, plain,
  stripes, stripes_to, Animated, size_of, side_of, Style, absolute, relative, flex, overflow_hidden,
  inset_zero, offset, size, square, max_size, place, opacity, radius, background, transition,
  inset_shadow, translate, Box, box, Boxes, nothing, boxes, Orientation, vertical, horizontal,
  grows, grows_and_fades, by_orientation, sized, rounded_sm, filled, filled_across, leaf, around,
  at_base,
}

-- The variants that are drawn as such.
pub data Resolved : Type 0 where
  hatched gridded blocked ghostly capsuled ticked lolly : Resolved

unfoldable pub resolve_variant : ChartVariant → Resolved
resolve_variant grid = gridded
resolve_variant paired = gridded
resolve_variant ledger = gridded
resolve_variant block = blocked
resolve_variant split = blocked
resolve_variant area = blocked
resolve_variant ghost = ghostly
resolve_variant capsule = capsuled
resolve_variant ticks = ticked
resolve_variant lollipop = lolly
resolve_variant hatch = hatched

abbrev pub hatch_mark : Orientation → Text → Text → Text → Box
hatch_mark o color faded fill_pct = leaf (
    absolute
    ∷ (filled o fill_pct
        ++ opacity faded
          ∷ rounded_sm
          ∷ background (stripes (by_orientation o 300 30) color)
          ∷ transition (sized o) grows_and_fades
          ∷ []))

abbrev pub grid_mark : Orientation → Text → Text → Text → Box
grid_mark o color faded fill_pct = around (absolute ∷ inset_zero ∷ flex ∷ at_base o ∷ []) (
    leaf (
      opacity faded
      ∷ radius (codes "2")
      ∷ background (plain color)
      ∷ transition (sized o) grows_and_fades
      ∷ by_orientation o (size width (codes "46%") ∷ size height fill_pct ∷ [])
          (size height (codes "46%") ∷ size width fill_pct ∷ [])))

abbrev pub block_mark : Orientation → Text → Text → Text → Box
block_mark o color faded fill_pct = leaf (
    absolute
    ∷ (filled o fill_pct
        ++ opacity faded ∷ background (plain color) ∷ transition (sized o) grows_and_fades ∷ []))

abbrev pub ghost_mark : Orientation → Text → Text → Text → Box
ghost_mark o color faded fill_pct = box (absolute ∷ inset_zero ∷ opacity faded ∷ []) (
    boxes
      (leaf (
        absolute
        ∷ inset_zero
        ∷ background (plain (codes "var(--surface-sunken)"))
        ∷ rounded_sm
        ∷ []))
      (boxes
        (leaf (
          absolute
          ∷ rounded_sm
          ∷ background (plain color)
          ∷ transition (sized o) grows
          ∷ (filled_across o fill_pct
              ++ max_size (by_orientation o height width) (codes "100%")
                ∷ inset_shadow (by_orientation o top right) (codes "6px")
                ∷ opacity (codes "0.35")
                ∷ [])))
        (boxes
          (leaf (
            absolute
            ∷ background (plain color)
            ∷ radius (codes "999")
            ∷ (by_orientation o
                  (offset left (codes "0")
                    ∷ offset right (codes "0")
                    ∷ size height (codes "6")
                    ∷ offset bottom fill_pct
                    ∷ translate bottom (codes "3px")
                    ∷ [])
                  (offset top (codes "0")
                    ∷ offset bottom (codes "0")
                    ∷ size width (codes "6")
                    ∷ offset left fill_pct
                    ∷ translate left (codes "3px")
                    ∷ [])
                ++ transition (side_of (by_orientation o bottom left)) grows ∷ [])))
          nothing)))

abbrev pub capsule_mark : Orientation → Text → Text → Text → Box
capsule_mark o color faded fill_pct =
    around (absolute ∷ inset_zero ∷ flex ∷ place center center ∷ opacity faded ∷ []) (
      around
        (relative
          ∷ radius (codes "999")
          ∷ background (plain (codes "var(--surface-sunken)"))
          ∷ overflow_hidden
          ∷ by_orientation o (size width (codes "58%") ∷ size height (codes "100%") ∷ [])
              (size height (codes "58%") ∷ size width (codes "100%") ∷ []))
        (leaf (
          absolute
          ∷ radius (codes "999")
          ∷ background (plain color)
          ∷ transition (sized o) grows
          ∷ filled_across o fill_pct)))

abbrev pub ticks_mark : Orientation → Text → Text → Text → Box
ticks_mark o color faded fill_pct = box (absolute ∷ inset_zero ∷ opacity faded ∷ []) (
    boxes
      (leaf (
        absolute
        ∷ inset_zero
        ∷ background (stripes_to (by_orientation o top right) (codes "var(--chart-grid)"))
        ∷ radius (codes "2")
        ∷ []))
      (boxes
        (leaf (
          absolute
          ∷ background (stripes_to (by_orientation o top right) color)
          ∷ transition (sized o) grows
          ∷ filled_across o fill_pct))
        nothing))

abbrev pub lollipop_mark : Orientation → Text → Text → Text → Box
lollipop_mark o color faded fill_pct =
    around (absolute ∷ inset_zero ∷ flex ∷ at_base o ∷ opacity faded ∷ []) (
      around
        (relative
          ∷ background (plain color)
          ∷ radius (codes "2")
          ∷ transition (sized o) grows
          ∷ by_orientation o (size width (codes "2") ∷ size height fill_pct ∷ [])
              (size height (codes "2") ∷ size width fill_pct ∷ []))
        (leaf (
          absolute
          ∷ square (codes "8")
          ∷ radius (codes "999")
          ∷ background (plain color)
          ∷ by_orientation o
              (offset top (codes "-4")
                ∷ offset left (codes "50%")
                ∷ translate left (codes "50%")
                ∷ [])
              (offset right (codes "-4")
                ∷ offset top (codes "50%")
                ∷ translate top (codes "50%")
                ∷ []))))

abbrev pub mark : Resolved → Orientation → Text → Text → Text → Box
mark hatched = hatch_mark
mark gridded = grid_mark
mark blocked = block_mark
mark ghostly = ghost_mark
mark capsuled = capsule_mark
mark ticked = ticks_mark
mark lolly = lollipop_mark

-- `at_least_1_5` is the text of `Math.max(pct, 1.5)`.
unfoldable pub bar_mark {ℓ} :
    {Number : Type ℓ} → (Number → Text) → ChartVariant → Text → Number → Bool → Orientation → Box
unfolding resolve_variant
bar_mark at_least_1_5 variant color_var pct dimmed o =
    mark (resolve_variant variant) o (codes "var(--" ++ (color_var ++ codes ")"))
      (if dimmed then codes "0.45" else codes "1") (at_least_1_5 pct ++ codes "%")
