-- ===== src/Charts/Bars/Tests.antt =====
-- Three zones, and three hours with every second label.
use openscale.Base.{codes, List, [], ◌∷◌, none, some, true, false, ◌≡◌, refl}
use openscale.Charts.Pointer.{initial_pointer, pointer_step, mouse_move}
use openscale.Charts.Bars.{BarPoint, shown, bar_chart, leave_row}

abbrev zones : List BarPoint
zones =
    record { label = codes "Zone 132"; value = 50 }
    ∷ record { label = codes "Zone 236"; value = 25 }
    ∷ record { label = codes "Zone 7"; value = 0 }
    ∷ []

bars :
    bar_chart 2 (pointer_step initial_pointer (mouse_move 3 1)) zones
    ≡ shown false
        (record {
          pct = record { num = 5000; den = 50 };
          is_dimmed = true;
          label = codes "Zone 132";
        }
          ∷ record { pct = record { num = 2500; den = 50 }; is_dimmed = false; label = [] }
          ∷ record { pct = record { num = 2; den = 1 }; is_dimmed = true; label = codes "Zone 7" }
          ∷ [])
        none
        (some record {
          left = record { num = 300; den = 6 };
          top = record { num = 2500; den = 50 };
          label = codes "Zone 236";
          value = 25;
        })
unfolding bar_chart pointer_step
bars = refl

stays_on_the_next : leave_row 1 (some 2) ≡ some 2
unfolding leave_row
stays_on_the_next = refl
