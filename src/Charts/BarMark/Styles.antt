-- ===== src/Charts/BarMark/Styles.antt =====
-- frontend/src/domains/dashboards/ui/charts/BarMark.tsx: boxes with their styles, and the styles that the
-- marks share. `align-items` and `justify-content` are one declaration.
use openscale.Base.{Text, codes, List, [], ◌∷◌, ℕ}

pub data Side : Type 0 where
  top bottom left right : Side

pub data Extent : Type 0 where
  width height : Extent

pub data Place : Type 0 where
  start center end : Place

-- `stripes angle` are lines across that angle, `stripes_to` the repeating bands towards a side, of
-- the given colour.
pub data Paint : Type 0 where
  plain : Text → Paint
  stripes : ℕ → Text → Paint
  stripes_to : Side → Text → Paint

pub data Animated : Type 0 where
  size_of : Extent → Animated
  side_of : Side → Animated

-- `translate` and `inset_shadow` go towards a side, as far as the amount says; `place` is
-- `align-items` and then `justify-content`, `square` width and
-- then height; `transition` has the rest of its text.
pub data Style : Type 0 where
  absolute relative flex overflow_hidden inset_zero : Style
  offset : Side → Text → Style
  size : Extent → Text → Style
  square : Text → Style
  max_size : Extent → Text → Style
  place : Place → Place → Style
  opacity : Text → Style
  radius : Text → Style
  background : Paint → Style
  transition : Animated → Text → Style
  inset_shadow : Side → Text → Style
  translate : Side → Text → Style

mutual
  pub data Box : Type 0 where
    box : List Style → Boxes → Box

  pub data Boxes : Type 0 where
    nothing : Boxes
    boxes : Box → Boxes → Boxes

pub data Orientation : Type 0 where
  vertical horizontal : Orientation

abbrev pub grows : Text
grows = codes " var(--dur-slow) var(--ease-out)"

abbrev pub grows_and_fades : Text
grows_and_fades =
    codes " var(--dur-slow) var(--ease-out), opacity var(--dur-fast) var(--ease-standard)"

abbrev pub by_orientation {ℓ} : {A : Type ℓ} → Orientation → A → A → A
by_orientation vertical v h = v
by_orientation horizontal v h = h

abbrev pub sized : Orientation → Animated
sized o = size_of (by_orientation o height width)

abbrev pub rounded_sm : Style
rounded_sm = radius (codes "var(--radius-sm)")

-- `{ bottom: 0, left: 0, right: 0, height: fillPct }` or `{ left: 0, top: 0, bottom: 0, width: fillPct }`
abbrev pub filled : Orientation → Text → List Style
filled o fill_pct =
    by_orientation o
      (offset bottom (codes "0")
        ∷ offset left (codes "0")
        ∷ offset right (codes "0")
        ∷ size height fill_pct
        ∷ [])
      (offset left (codes "0")
        ∷ offset top (codes "0")
        ∷ offset bottom (codes "0")
        ∷ size width fill_pct
        ∷ [])

-- `{ left: 0, right: 0, bottom: 0, height: fillPct }` or `{ top: 0, bottom: 0, left: 0, width: fillPct }`
abbrev pub filled_across : Orientation → Text → List Style
filled_across o fill_pct =
    by_orientation o
      (offset left (codes "0")
        ∷ offset right (codes "0")
        ∷ offset bottom (codes "0")
        ∷ size height fill_pct
        ∷ [])
      (offset top (codes "0")
        ∷ offset bottom (codes "0")
        ∷ offset left (codes "0")
        ∷ size width fill_pct
        ∷ [])

-- A box with no child, and a box with one.
abbrev pub leaf : List Style → Box
leaf styles = box styles nothing

abbrev pub around : List Style → Box → Box
around styles child = box styles (boxes child nothing)

-- At the base of the bar, centred across it.
abbrev pub at_base : Orientation → Style
at_base o = by_orientation o (place end center) (place center start)
