-- ===== src/Streaming/ReplayForm.antt =====
-- frontend/src/domains/streaming/ui/ReplayControls.tsx: the form that starts a replay and what the
-- panel shows. Amounts are counted in tenths of the unit `one`, fine enough for every digit of the
-- texts in the form; `number` is the host's `Number`.
mod Laws
mod Tests
use openscale.Base.{
  ℕ, ◌+◌, ◌*◌, min, max, Text, codes, text_eq, List, [], ◌∷◌, ◌++◌, Option, none, some, Bool, true,
  false, ◌||◌, ◌==◌, if◌then◌else◌,
}
use openscale.Streaming.Replay.{
  ReplayState, JobControlAction, pause, resume, cancel, set_speed, toggle_pause,
  handle_speed_change, cancel_replay,
}

-- What `Number` gives: `minus n` and `plus n` are -n and n parts of a unit.
pub data Parsed : Type 0 where
  nan : Parsed
  minus : ℕ → Parsed
  plus : ℕ → Parsed

pub record FormState : Type 0 where
  pub date : Text
  pub limit : Text
  pub rate : Text

abbrev pub initial_form : FormState
initial_form = record { date = []; limit = codes "500"; rate = codes "10" }

pub record ReplayParams : Type 0 where
  pub date : Option Text
  pub limit : ℕ
  pub messages_per_second : ℕ

-- `Number(s) || fallback`: 0 and NaN are falsy.
abbrev pub or_default : ℕ → Parsed → Parsed
or_default fallback nan = plus fallback
or_default fallback (minus n) = if n == 0 then plus fallback else minus n
or_default fallback (plus n) = if n == 0 then plus fallback else plus n

-- `Math.min(Math.max(lo, x), hi)` for a positive `lo`.
abbrev pub clamp : ℕ → ℕ → Parsed → ℕ
clamp lo hi nan = lo
clamp lo hi (minus n) = min lo hi
clamp lo hi (plus n) = min (max lo n) hi

abbrev pub or_undefined : Text → Option Text
or_undefined [] = none
or_undefined (c ∷ cs) = some (c ∷ cs)

-- `tenth` parts are 0.1, and ten times as many are 1.
module _ (tenth : ℕ) (number : Text → Parsed) where
  abbrev pub one : ℕ
  one = 10 * tenth

  unfoldable pub parsed_limit : Text → ℕ
  parsed_limit text = clamp one (5000 * one) (or_default (500 * one) (number text))

  unfoldable pub parsed_rate : Text → ℕ
  parsed_rate text = clamp tenth (100 * one) (or_default (10 * one) (number text))

  -- `handleSubmit`; `none` where it returns early.
  unfoldable pub handle_submit : Bool → Bool → FormState → Option ReplayParams
  unfolding parsed_limit parsed_rate
  handle_submit pending is_active form =
      if pending || is_active
      then none
      else some record {
        date = or_undefined form.date;
        limit = parsed_limit form.limit;
        messages_per_second = parsed_rate form.rate;
      }

pub data FormField : Type 0 where
  date_field limit_field rate_field : FormField

unfoldable pub set_field : FormField → Text → FormState → FormState
set_field date_field value form = record form { date = value }
set_field limit_field value form = record form { limit = value }
set_field rate_field value form = record form { rate = value }

pub data Control : Type 0 where
  toggle_pause_click : Control
  cancel_click : Control
  speed_click : ℕ → Control
  submit_click : Control

-- The handlers of a replay in flight; a submission is `handle_submit`.
unfoldable pub on_click : Control → ReplayState → ReplayState
unfolding toggle_pause cancel_replay handle_speed_change
on_click toggle_pause_click s = toggle_pause s
on_click cancel_click s = cancel_replay s
on_click (speed_click value) s = handle_speed_change value s
on_click submit_click s = s

-- What the panel shows, in document order. A button has its text, whether it is pressed and
-- whether it is disabled; an input its label, its text and whether it is disabled.
pub data Item : Type 0 where
  words : Text → Item
  button : Text → Bool → Bool → Control → Item
  input : FormField → Text → Text → Bool → Item

-- A segment of `SPEED_OPTIONS`.
abbrev pub speed_option : ℕ → ℕ → Text → Item
speed_option speed value label = button label (value == speed) false (speed_click value)

unfoldable pub active_row : ReplayState → Text → List Item
active_row s job_id =
    button (if s.pause_intent then codes "Resume" else codes "Pause") false false toggle_pause_click
    ∷ button (codes "Cancel") false false cancel_click
    ∷ words (codes "Playback speed")
    ∷ speed_option s.speed 1 (codes "×1")
    ∷ speed_option s.speed 2 (codes "×2")
    ∷ speed_option s.speed 3 (codes "×3")
    ∷ speed_option s.speed 5 (codes "×5")
    ∷ speed_option s.speed 10 (codes "×10")
    ∷ words (
        (if s.pause_intent then codes "Paused" else codes "Replaying")
        ++ (codes " · job " ++ job_id))
    ∷ []

-- `max_limit` is `MAX_LIMIT.toLocaleString()`.
unfoldable pub start_form : Text → Bool → FormState → List Item
start_form max_limit pending form =
    input date_field (codes "Date (optional)") form.date pending
    ∷ input limit_field (codes "Limit (max " ++ (max_limit ++ codes ")")) form.limit pending
    ∷ input rate_field (codes "Messages / sec — base rate (max 100)") form.rate pending
    ∷ button (if pending then codes "Starting…" else codes "Start Replay") false pending
        submit_click
    ∷ []

abbrev pub job_id_of : ReplayState → Text
job_id_of s = elim s.active_job_id [ none ↦ [] | some id ↦ id ]

abbrev pub error_words : Option Text → List Item
error_words none = []
error_words (some []) = []
error_words (some (c ∷ cs)) = words (c ∷ cs) ∷ []

abbrev pub note : Bool → Text
note true =
    codes
      "The speed picker multiplies the base send rate live -- it doesn't change what was set when this replay started."
note false = codes "Leave the date blank to replay the most recent day available in Silver."

unfoldable pub replay_controls :
    Text → Bool → Option Text → Bool → ReplayState → FormState → List Item
unfolding active_row start_form
replay_controls max_limit pending error is_active s form =
    words (codes "Replay Trips")
    ∷ words (
        codes
          "Streams one day of real Silver trips onto Kafka's yellow-taxi-trips topic, at a configurable send rate.")
    ∷ ((if is_active then active_row s (job_id_of s) else start_form max_limit pending form)
        ++ words (note is_active) ∷ error_words error)
