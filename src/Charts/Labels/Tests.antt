-- ===== src/Charts/Labels/Tests.antt =====
-- Midnight, noon and a duration.
use openscale.Base.{codes, some, ◌≡◌, refl}
use openscale.Base.Decimal.{show}
use openscale.Pipelines.Duration.{duration_label}
use openscale.Charts.Labels.{format_hour_label, format_duration_seconds}

midnight : format_hour_label 0 ≡ codes "12 AM"
unfolding format_hour_label show
midnight = refl

noon : format_hour_label 12 ≡ codes "12 PM"
unfolding format_hour_label show
noon = refl

minutes : format_duration_seconds (some 184) ≡ codes "3m 4s"
unfolding format_duration_seconds duration_label show
minutes = refl
