-- ===== src/Streaming/ReplayForm/Tests.antt =====
-- A form with a limit that is too large and no rate.
use openscale.Base.{◌*◌, Text, codes, [], ◌∷◌, none, some, true, false, ◌≡◌, refl}
use openscale.Base.Decimal.{value}
use openscale.Streaming.Replay.{ReplayState}
use openscale.Streaming.ReplayForm.{
  Parsed, nan, plus, FormState, handle_submit, toggle_pause_click, on_click, speed_click,
}
use openscale.Streaming.ReplayForm.Laws.{IsSubmission, handle_submit-IsSubmission}

-- Whole numbers, in tenths.
whole : Text → Parsed
whole [] = nan
whole (c ∷ cs) = plus (10 * value (c ∷ cs))

abbrev entered : FormState
entered = record { date = []; limit = codes "90000"; rate = [] }

sent :
    handle_submit 1 whole false false entered
    ≡ some record { date = none; limit = 50_000; messages_per_second = 100 }
unfolding handle_submit whole value
sent = refl

ignored_while_pending : handle_submit 1 whole true false entered ≡ none
unfolding handle_submit
ignored_while_pending = refl

abbrev replaying : ReplayState
replaying = record { active_job_id = some (codes "j1"); pause_intent = false; speed = 1; sent = [] }

paused_speed : (on_click (speed_click 5) (on_click toggle_pause_click replaying)).speed ≡ 5
unfolding on_click
paused_speed = refl

handle_submit-IsSubmission_example :
    IsSubmission 1 whole entered false (handle_submit 1 whole false false entered)
handle_submit-IsSubmission_example = handle_submit-IsSubmission 1 whole false false entered
