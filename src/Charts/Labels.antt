-- ===== src/Charts/Labels.antt =====
-- frontend/src/domains/dashboards/domain/rules.ts: the labels of an hour and of a
-- duration.
mod Tests
use openscale.Base.{
  ℕ, ◌%◌, ◌==◌, Text, codes, List, [], ◌∷◌, ◌++◌, Option, none, some, Bool, true, false, ltb,
  if◌then◌else◌,
}
use openscale.Base.Decimal.{show}
use openscale.Pipelines.Runs.{JobRun, JobState}
use openscale.Pipelines.Duration.{duration_label, dash}

-- For an hour from 0 to 23.
unfoldable pub format_hour_label : ℕ → Text
format_hour_label hour =
    let period = if ltb hour 12 then codes "AM" else codes "PM" in
    let display = if hour % 12 == 0 then 12 else hour % 12 in show display ++ (codes " " ++ period)

-- `seconds` is the number after `Math.round`.
unfoldable pub format_duration_seconds : Option ℕ → Text
format_duration_seconds none = dash
format_duration_seconds (some rounded) = duration_label rounded
