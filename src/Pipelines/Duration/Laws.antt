-- ===== src/Pipelines/Duration/Laws.antt =====
-- The duration's text says the elapsed seconds: a reader of "3m 4s" gets the number back.
use openscale.Base.{
  ◌≤◌, ◌⊎◌, refl, ltb→lt, ℕ, ◌+◌, ◌-◌, ◌*◌, ◌/◌, ◌%◌, ◌<◌, Text, codes, [], ◌∷◌, ◌++◌, Option, none,
  some, if◌then◌else◌, ltb, ◌==◌, ◌≡◌, ap, sym, ◌∙◌, true, Bool-cases, inl, inr, arith,
  append_assoc, append-nil,
}
use openscale.Base.Decimal.{show, scan-show}
use openscale.Pipelines.Runs.{JobState, is_present}
use openscale.Pipelines.Duration.{
  Clock, elapsed_seconds, duration_label, end_time, format_run_duration,
}

-- `acc` is the number being read and `total` the seconds of the minutes read; what follows the
-- `s` is left out of account.
read_from : ℕ → ℕ → Text → Option ℕ
read_from total acc [] = none
read_from total acc (c ∷ cs) =
    let more = read_from total (acc * 10 + (c - 48)) cs in
    let minutes = read_from (total + acc * 60) 0 cs in
    let blank = read_from total acc cs in
    if c == b's'
    then some (total + acc)
    else if c == b'm'
    then minutes
    else if c == b' '
    then blank
    else more

-- A reader of durations, independent of the printer.
pub read_duration : Text → Option ℕ
unfolding read_from
read_duration text = read_from 0 0 text

read_from-digit :
    (total acc d : ℕ) (rest : Text)
    → d < 10
    → read_from total acc ((48 + d) ∷ rest) ≡ read_from total (acc * 10 + d) rest
unfolding read_from
read_from-digit total acc d rest h = ground arith

read_from-show :
    (total n : ℕ) (rest : Text) → read_from total 0 (show n ++ rest) ≡ read_from total n rest
read_from-show total = scan-show (read_from total) (read_from-digit total)

pub read_duration-duration_label :
    (seconds : ℕ) (rest : Text) → read_duration (duration_label seconds ++ rest) ≡ some seconds
unfolding read_from duration_label read_duration
read_duration-duration_label seconds rest = elim (Bool-cases (ltb seconds 60)) [
  | inl short ↦ rw short (
      ap (read_from 0 0) (append_assoc (show seconds) (codes "s") rest)
      ∙ (read_from-show 0 seconds (codes "s" ++ rest) ∙ ap some (omega arith)))
  | inr long ↦ rw long (
      ap (read_from 0 0) (append_assoc (show (seconds / 60)) _ rest)
      ∙ (read_from-show 0 (seconds / 60)
            (codes "m " ++ ((show (seconds % 60) ++ codes "s") ++ rest))
          ∙ (ap (read_from (0 + seconds / 60 * 60) 0)
                (append_assoc (show (seconds % 60)) (codes "s") rest)
              ∙ (read_from-show (0 + seconds / 60 * 60) (seconds % 60) (codes "s" ++ rest)
                  ∙ ap some (omega arith)))))
]

-- The moment at which a run's time ends: what its finishing time says, or the present where it has
-- none, or an empty one.
pub data EndsAt (clock : Clock) : Option Text → ℕ → Type 0 where
  still_open : EndsAt clock none clock.now
  left_blank : EndsAt clock (some []) clock.now
  finished :
      (c : ℕ) (cs : Text) (end : ℕ)
      → clock.get_time (c ∷ cs) ≡ some end
      → EndsAt clock (some (c ∷ cs)) end

-- The whole seconds nearest to the milliseconds from `start` to `end`, a half rounded up, and 0 where
-- the end lies before the start.
abbrev pub AreSeconds : ℕ → ℕ → ℕ → Type 0
AreSeconds start end seconds =
    ((end < start) × (seconds ≡ 0))
    ⊎ ((start + 1000 * seconds ≤ end + 500) × (end + 500 < start + 1000 * seconds + 1000))

elapsed_seconds-AreSeconds : (start end : ℕ) → AreSeconds start end (elapsed_seconds start end)
unfolding elapsed_seconds
elapsed_seconds-AreSeconds start end = elim (Bool-cases (ltb end start)) [
  | inl before ↦ let early : end < start = ltb→lt end start before in inl (early, omega arith)
  | inr after ↦ let late : start ≤ end = ground arith in inr (omega arith, omega arith)
]

end_time-EndsAt :
    (clock : Clock) (finished_at : Option Text) (end : ℕ)
    → EndsAt clock finished_at end
    → end_time clock finished_at ≡ some end
unfolding end_time
end_time-EndsAt clock _ _ still_open = refl
end_time-EndsAt clock _ _ left_blank = refl
end_time-EndsAt clock _ _ (finished c cs end e) = e

read_started :
    (clock : Clock) (started_at : Text) (finished_at : Option Text) (state : JobState)
    (start end : ℕ)
    → is_present (some started_at) ≡ true
    → clock.get_time started_at ≡ some start
    → end_time clock finished_at ≡ some end
    → read_duration (format_run_duration clock (some started_at) finished_at state)
      ≡ some (elapsed_seconds start end)
unfolding format_run_duration
read_started clock started_at finished_at state start end p s e =
    elim (Bool-cases (is_present finished_at)) [
      | inl ended ↦
          rw (p, s, e, ended)
            (ap read_duration (sym (append-nil (duration_label (elapsed_seconds start end))))
              ∙ read_duration-duration_label (elapsed_seconds start end) [])
      | inr open_ended ↦
          rw (p, s, e, open_ended)
            (read_duration-duration_label (elapsed_seconds start end) (codes " (running)"))
    ]

-- The text of a started run, finished or not, read back gives the seconds from its start to its
-- end, or to the present while it has no end: the nearest whole number of them, a half rounded up,
-- and 0 where the end lies before the start. The run has a starting time, and both times are valid.
pub read_duration-format_run_duration :
    (clock : Clock) (c : ℕ) (cs : Text) (finished_at : Option Text) (state : JobState)
    (start end : ℕ)
    → clock.get_time (c ∷ cs) ≡ some start
    → EndsAt clock finished_at end
    → (seconds : ℕ) × (AreSeconds start end seconds)
      × (read_duration (format_run_duration clock (some (c ∷ cs)) finished_at state) ≡ some seconds)
read_duration-format_run_duration clock c cs finished_at state start end s e = (
  elapsed_seconds start end,
  elapsed_seconds-AreSeconds start end,
  read_started clock (c ∷ cs) finished_at state start end refl s
      (end_time-EndsAt clock finished_at end e),
)
