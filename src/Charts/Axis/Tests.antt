-- ===== src/Charts/Axis/Tests.antt =====
-- The labels of a day of hourly points: 0, 5, 9, 14, 18 and 23.
use openscale.Base.{◌≡◌, refl}
use openscale.Charts.Axis.{label_index}

middle : label_index 24 2 ≡ 9
unfolding label_index
middle = refl
