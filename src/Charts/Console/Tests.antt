-- ===== src/Charts/Console/Tests.antt =====
-- A week of revenue, and a mirrored chart whose first series is cut.
use openscale.Base.{
  ◌+◌, ◌/◌, ◌<◌, ◌≤◌, ◌⊎◌, get_elem?, ◌*◌, codes, List, [], ◌∷◌, none, some, true, ◌≡◌, refl, arith,
}
use openscale.Charts.Console.{
  ConsoleBarDatum, axis_values, ceiling, half_height, effective_variant, halves,
}
use openscale.Charts.Console.Drawn.{plots, console_bar_chart}
use openscale.Charts.Console.Mirror.{half_height_clips}
use openscale.Appearance.Settings.{split, block}

abbrev revenue : List ConsoleBarDatum
revenue =
    record { label = codes "Mon"; a = 900; b = 1 }
    ∷ record { label = codes "Tue"; a = 600; b = 2 }
    ∷ []

top_of_axis : ceiling none revenue ≡ 1000
unfolding ceiling
top_of_axis = refl

mirrored_axis :
    console_bar_chart true none 5 split revenue
    ≡ plots (500 ∷ 250 ∷ 0 ∷ 250 ∷ 500 ∷ []) none (
        (
          codes "Mon",
          some (halves (record { num = 100; den = 1 }) (record { num = 200; den = 1000 })),
        )
        ∷ (
          codes "Tue",
          some (halves (record { num = 100; den = 1 }) (record { num = 400; den = 1000 })),
        )
        ∷ [])
unfolding console_bar_chart
mirrored_axis = refl

single_series_falls_back :
    effective_variant split (record { label = codes "Mon"; a = 9; b = 0 } ∷ []) ≡ block
unfolding effective_variant
single_series_falls_back = refl

half_height_clips_example :
    (let ends = (1000 + 1) / 2 in
      (get_elem? (axis_values split 1000 5) 0 ≡ some ends)
      × (get_elem? (axis_values split 1000 5) 4 ≡ some ends))
    × ((let p = half_height true 1000 900 in
          (2 * 900 < 1000) × (p.num * 1000 ≡ 200 * 900 * p.den) × (p.num < 100 * p.den))
        ⊎ (let p = half_height true 1000 900 in (1000 ≤ 2 * 900) × (p.num ≡ 100 * p.den)))
half_height_clips_example = half_height_clips 1000 5 900 (omega arith)
