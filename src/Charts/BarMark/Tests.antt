-- ===== src/Charts/BarMark/Tests.antt =====
-- A bar of forty percent.
use openscale.Base.{codes, ◌∷◌, [], true, false, ◌≡◌, refl}
use openscale.Base.Decimal.{show}
use openscale.Appearance.Settings.{ghost, split}
use openscale.Charts.BarMark.{bar_mark}
use openscale.Charts.BarMark.Styles.{
  box, nothing, absolute, offset, bottom, left, right, size, height, opacity, background, plain,
  transition, size_of, grows_and_fades, vertical, horizontal,
}
use openscale.Charts.BarMark.Laws.{turn, bar_mark-turn}

split_is_a_block :
    bar_mark show split (codes "brand") 40 true vertical
    ≡ box
        (absolute
          ∷ offset bottom (codes "0")
          ∷ offset left (codes "0")
          ∷ offset right (codes "0")
          ∷ size height (codes "40%")
          ∷ opacity (codes "0.45")
          ∷ background (plain (codes "var(--brand)"))
          ∷ transition (size_of height) grows_and_fades
          ∷ [])
        nothing
unfolding bar_mark show
split_is_a_block = refl

bar_mark-turn_example :
    bar_mark show ghost (codes "brand") 40 false horizontal
    ≡ turn (bar_mark show ghost (codes "brand") 40 false vertical)
bar_mark-turn_example = bar_mark-turn show ghost (codes "brand") 40 false
