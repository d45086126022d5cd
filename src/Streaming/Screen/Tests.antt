-- ===== src/Streaming/Screen/Tests.antt =====
-- A replay that is started, paused and cancelled, and then ends.
use openscale.Base.{Text, codes, List, [], ◌∷◌, none, some, true, false, ◌≡◌, refl}
use openscale.Base.Decimal.{show}
use openscale.Pipelines.Runs.{JobState}
use openscale.Pipelines.Events.{Frame, on_message}
use openscale.Streaming.Replay.{pause, cancel, set_active_job}
use openscale.Streaming.ReplayForm.{
  Parsed, nan, initial_form, handle_submit, toggle_pause_click, cancel_click, speed_click, on_click,
}
use openscale.Streaming.Screen.{
  ScreenState, ScreenEvent, submits, clicks, start_succeeded, frame, active, screen_step,
  screen_steps, topics_panel,
}
use openscale.Streaming.Screen.Laws.{IsOver, screen_steps-IsOver}

abbrev unread : Text → Parsed
unread text = nan

abbrev opened : ScreenState
opened = record {
  replay = record { active_job_id = none; pause_intent = false; speed = 1; sent = [] };
  form = initial_form;
  panel = record { state = none; log_lines = [] };
  start_pending = false;
  start_error = none;
  started = [];
}

abbrev used : List ScreenEvent
used =
    submits
    ∷ start_succeeded (codes "j1")
    ∷ frame (Frame.backfill JobState.running none)
    ∷ clicks toggle_pause_click
    ∷ clicks cancel_click
    ∷ []

commands : (screen_steps 1 unread opened used).replay.sent ≡ (pause, none) ∷ (cancel, none) ∷ []
unfolding screen_steps screen_step on_message on_click set_active_job handle_submit
commands = refl

still_active : active (screen_steps 1 unread opened used) ≡ true
unfolding screen_steps screen_step on_message on_click set_active_job handle_submit
still_active = refl

topics :
    topics_panel show record {
      is_loading = false;
      is_error = false;
      result = some record {
        topics =
            record { name = codes "yellow-taxi-trips"; partitions = 1; message_count = 1245 } ∷ [];
        broker_reachable = true;
      };
    }
    ≡ codes "yellow-taxi-trips" ∷ codes "1 partition · 1245 messages" ∷ []
unfolding topics_panel show
topics = refl

screen_steps-IsOver_example : IsOver 1 unread (screen_steps 1 unread opened used) (
    screen_steps 1 unread
      (screen_steps 1 unread opened used)
      (frame (Frame.status JobState.cancelled) ∷ clicks (speed_click 5) ∷ submits ∷ []))
screen_steps-IsOver_example =
    screen_steps-IsOver 1 unread (screen_steps 1 unread opened used)
      (Frame.status JobState.cancelled) JobState.cancelled (clicks (speed_click 5) ∷ submits ∷ [])
      refl refl (tt, (tt, tt))
