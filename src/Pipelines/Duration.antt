-- ===== src/Pipelines/Duration.antt =====
-- frontend/src/domains/pipelines/domain/rules.ts: the text of a run's duration.
mod Laws
mod Tests
use openscale.Base.{
  ℕ, ◌+◌, ◌-◌, ◌/◌, ◌%◌, ◌<◌, Text, codes, ◌++◌, Option, none, some, if◌then◌else◌, ltb,
}
use openscale.Base.Decimal.{show}
use openscale.Pipelines.Runs.{JobState, is_queued, is_present}

-- What the browser gives: `new Date(iso).getTime()` in milliseconds, `none` for NaN, and
-- `Date.now()`.
pub record Clock : Type 0 where
  pub get_time : Text → Option ℕ
  pub now : ℕ

-- `Math.max(0, Math.round((end - start) / 1000))`; a difference below 0 is cut to 0 either way.
unfoldable pub elapsed_seconds : ℕ → ℕ → ℕ
elapsed_seconds start end = (end - start + 500) / 1000

-- `${seconds}s` below a minute, `${minutes}m ${rest}s` from there.
unfoldable pub duration_label : ℕ → Text
duration_label seconds =
    if ltb seconds 60
    then show seconds ++ codes "s"
    else show (seconds / 60) ++ (codes "m " ++ (show (seconds % 60) ++ codes "s"))

-- Seconds from one moment to another; arithmetic on NaN is NaN.
abbrev pub seconds_between : Option ℕ → Option ℕ → Option ℕ
seconds_between (some start) (some end) = some (elapsed_seconds start end)
seconds_between _ _ = none

abbrev pub seconds_label : Option ℕ → Text
seconds_label (some seconds) = duration_label seconds
seconds_label none = codes "NaNm NaNs"

abbrev pub dash : Text
dash = codes "—"

module _ (clock : Clock) where
  -- `finishedAt ? new Date(finishedAt).getTime() : Date.now()`
  unfoldable pub end_time : Option Text → Option ℕ
  end_time none = some clock.now
  end_time (some iso) = if is_present (some iso) then clock.get_time iso else some clock.now

  abbrev started_duration : Text → Option Text → Text
  started_duration started_at finished_at =
      let label =
        seconds_label (seconds_between (clock.get_time started_at) (end_time finished_at)) in
      if is_present finished_at then label else label ++ codes " (running)"

  unfoldable pub format_run_duration : Option Text → Option Text → JobState → Text
  format_run_duration none finished_at state = if is_queued state then codes "(queued)" else dash
  format_run_duration (some started_at) finished_at state =
      if is_present (some started_at)
      then started_duration started_at finished_at
      else if is_queued state
      then codes "(queued)"
      else dash
