-- ===== src/Pipelines/Duration/Tests.antt =====
-- Durations as the tables show them.
use openscale.Base.{ℕ, codes, none, some, ◌≡◌, refl}
use openscale.Base.Decimal.{value, show}
use openscale.Pipelines.Runs.{running, queued, succeeded}
use openscale.Pipelines.Duration.{
  Clock, format_run_duration, elapsed_seconds, end_time, duration_label,
}
use openscale.Pipelines.Duration.Laws.{
  AreSeconds, still_open, read_duration, read_duration-format_run_duration,
}

-- Times are written as milliseconds here.
abbrev clock : Clock
clock = record { get_time = λ iso. some (value iso); now = 200000 }

finished_run :
    format_run_duration clock (some (codes "16000")) (some (codes "200499")) succeeded
    ≡ codes "3m 4s"
unfolding format_run_duration end_time elapsed_seconds duration_label value show
finished_run = refl

open_run : format_run_duration clock (some (codes "188000")) none running ≡ codes "12s (running)"
unfolding format_run_duration end_time elapsed_seconds duration_label value show
open_run = refl

not_started : format_run_duration clock none none queued ≡ codes "(queued)"
unfolding format_run_duration
not_started = refl

read_duration-format_run_duration_example :
    (seconds : ℕ) × (AreSeconds 188000 200000 seconds)
    × (read_duration (format_run_duration clock (some (codes "188000")) none running)
        ≡ some seconds)
unfolding value
read_duration-format_run_duration_example =
    read_duration-format_run_duration clock 49 (codes "88000") none running 188000 200000 refl
      still_open
