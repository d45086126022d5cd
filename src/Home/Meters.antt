-- ===== src/Home/Meters.antt =====
-- frontend/src/domains/home/ui/ContainerLoadMeters.tsx: the meters of the container load in the style
-- of the chart that is picked. A meter is the row of its texts and marks in document order; fixed
-- styles are left out.
mod Laws
mod Tests
use openscale.Base.{
  ℕ, zero, suc, ◌-◌, Text, codes, List, [], ◌∷◌, ◌++◌, Option, none, some, Bool, true, false, ◌&&◌,
  ◌==◌, ltb, map, if◌then◌else◌,
}
use openscale.Base.Decimal.{show}
use openscale.Home.Gauges.{GaugeColor, accent, good, warn, crit, ResourceGauge}
use openscale.Appearance.Settings.{
  ChartVariant, hatch, grid, paired, lollipop, area, block, split, ticks, capsule, ledger, ghost,
}

-- `COLOR_VAR`
unfoldable pub color_var : GaugeColor → Text
color_var accent = codes "brand"
color_var good = codes "success"
color_var warn = codes "warning"
color_var crit = codes "danger"

-- The text after a prefix, or the whole text.
abbrev pub after_prefix : Text → Text → Option Text
after_prefix [] t = some t
after_prefix (c ∷ cs) [] = none
after_prefix (c ∷ cs) (d ∷ ds) = elim (after_prefix cs ds) [
  | none ↦ none
  | some rest ↦ if c == d then some rest else none
]

-- `label.replace(/^Container /, '')`
unfoldable pub short_label : Text → Text
short_label label = elim (after_prefix (codes "Container ") label) [
  | none ↦ label
  | some rest ↦ rest
]

-- `rounded` is `Math.round`; `of_twenty p` is `Math.round((p / 100) * 20)`, 0 for a negative `p`;
-- `clamped p` is `Math.max(0, Math.min(100, p))` and `from_hundred p` is `100 - p`.
pub record Percents (Number : Type 0) : Type 0 where
  pub rounded : Number → Text
  pub of_twenty : Number → ℕ
  pub clamped : Number → Number
  pub from_hundred : Number → Number

-- What a meter shows. `fill w c` is a mark as wide as `w` percent in the colour `c`, `dot` and `cap`
-- a mark that far from the left edge, `track` a track or its remainder, `tick` one of the segments,
-- with its colour if it is lit, and `ring` an arc with the part that is drawn and the part that is not.
pub data Part (Number : Type 0) : Type 0 where
  words : Text → Part Number
  fill : Number → Text → Part Number
  track : Part Number
  dot : Number → Text → Part Number
  cap : Number → Part Number
  tick : Option Text → Part Number
  ring : Number → Number → Text → Part Number

pub record Meter (Number : Type 0) : Type 0 where
  pub key : Text
  pub parts : List (Part Number)

module _ {Number : Type 0} (percents : Percents Number) where
  -- `{Math.round(g.valuePercent)}%`
  abbrev pub percent_words : ResourceGauge Number → Part Number
  percent_words g = words (percents.rounded g.value_percent ++ codes "%")

  abbrev pub color_of : ResourceGauge Number → Text
  color_of g = color_var g.color

  unfoldable pub default_meter : ResourceGauge Number → List (Part Number)
  default_meter g =
      words g.label
      ∷ percent_words g
      ∷ track
      ∷ fill g.value_percent (color_of g)
      ∷ words (g.used_label ++ codes " used")
      ∷ words g.total_label
      ∷ []

  unfoldable pub grid_meter : ResourceGauge Number → List (Part Number)
  grid_meter g = words g.label ∷ percent_words g ∷ track ∷ fill g.value_percent (color_of g) ∷ []

  unfoldable pub paired_meter : ResourceGauge Number → List (Part Number)
  paired_meter g = words g.label ∷ percent_words g ∷ fill g.value_percent (color_of g) ∷ track ∷ []

  unfoldable pub lollipop_meter : ResourceGauge Number → List (Part Number)
  lollipop_meter g =
      words (short_label g.label) ∷ track ∷ dot g.value_percent (color_of g) ∷ percent_words g ∷ []

  unfoldable pub area_meter : ResourceGauge Number → List (Part Number)
  area_meter g =
      words g.label
      ∷ percent_words g
      ∷ track
      ∷ fill g.value_percent (color_of g)
      ∷ cap g.value_percent
      ∷ []

  unfoldable pub block_meter : ResourceGauge Number → List (Part Number)
  block_meter g =
      words (short_label g.label) ∷ percent_words g ∷ fill g.value_percent (color_of g) ∷ track ∷ []

  unfoldable pub split_meter : ResourceGauge Number → List (Part Number)
  split_meter g =
      words (short_label g.label) ∷ track ∷ fill g.value_percent (color_of g) ∷ percent_words g ∷ []

  -- The segments from the `i`-th on, with `n` of them left.
  unfoldable pub tick_parts : ℕ → ℕ → ℕ → Text → List (Part Number)
  tick_parts zero i lit color = []
  tick_parts (suc n) i lit color =
      tick (if ltb i lit then some color else none) ∷ tick_parts n (suc i) lit color

  unfoldable pub ticks_meter : ResourceGauge Number → List (Part Number)
  unfolding tick_parts
  ticks_meter g =
      words g.label
      ∷ percent_words g
      ∷ tick_parts 20 0 (percents.of_twenty g.value_percent) (color_of g)

  unfoldable pub capsule_meter : ResourceGauge Number → List (Part Number)
  capsule_meter g =
      words g.label
      ∷ percent_words g
      ∷ track
      ∷ fill g.value_percent (color_of g)
      ∷ words (g.used_label ++ codes " used")
      ∷ words g.total_label
      ∷ []

  unfoldable pub ledger_meter : ResourceGauge Number → List (Part Number)
  ledger_meter g =
      words (short_label g.label)
      ∷ track
      ∷ fill g.value_percent (color_of g)
      ∷ words g.used_label
      ∷ []

  unfoldable pub ghost_meter : ResourceGauge Number → List (Part Number)
  ghost_meter g =
      let pct = percents.clamped g.value_percent in
      track
      ∷ ring pct (percents.from_hundred pct) (color_of g)
      ∷ percent_words g
      ∷ words (short_label g.label)
      ∷ []

  -- The `switch` on the variant.
  unfoldable pub meter_of : ChartVariant → ResourceGauge Number → List (Part Number)
  unfolding default_meter grid_meter paired_meter lollipop_meter area_meter block_meter split_meter
      ticks_meter capsule_meter ledger_meter ghost_meter
  meter_of grid g = grid_meter g
  meter_of paired g = paired_meter g
  meter_of lollipop g = lollipop_meter g
  meter_of area g = area_meter g
  meter_of block g = block_meter g
  meter_of split g = split_meter g
  meter_of ticks g = ticks_meter g
  meter_of capsule g = capsule_meter g
  meter_of ledger g = ledger_meter g
  meter_of ghost g = ghost_meter g
  meter_of hatch g = default_meter g

  unfoldable pub container_load_meters :
      ChartVariant → List (ResourceGauge Number) → List (Meter Number)
  container_load_meters variant gauges =
      map (λ g. record { key = g.id; parts = meter_of variant g }) gauges
