-- ===== src/Charts/Trend/Tests.antt =====
-- Two days, drawn as a staircase.
use openscale.Base.{codes, List, [], ◌∷◌, All, ◌≡◌, refl}
use openscale.Charts.Bars.{BarPoint}
use openscale.Charts.Trend.{Coord, coords}
use openscale.Charts.Trend.Laws.{IsWithin, coords-IsWithin}

abbrev days : List BarPoint
days =
    record { label = codes "Jul 1"; value = 10 } ∷ record { label = codes "Jul 2"; value = 30 } ∷ []

abbrev first_day : Coord
first_day = record {
  x = record { num = 0; less = 0; den = 1 };
  y = record { num = 302_400; less = 91_200; den = 2000 };
}

abbrev second_day : Coord
second_day = record {
  x = record { num = 560; less = 0; den = 1 };
  y = record { num = 302_400; less = 273_600; den = 2000 };
}

days_drawn : coords 120 days ≡ first_day ∷ second_day ∷ []
unfolding coords
days_drawn = refl

coords-IsWithin_example : All (IsWithin 120) (coords 120 days)
coords-IsWithin_example = coords-IsWithin 120 days
