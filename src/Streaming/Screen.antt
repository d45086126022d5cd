-- ===== src/Streaming/Screen.antt =====
-- frontend/src/domains/streaming/ui/StreamingScreen.tsx: how the replay controls, the trigger of a
-- replay and the events of its run act together; with the lists of ui/TopicsPanel.tsx and
-- ui/LiveEventFeed.tsx.
mod Laws
mod Tests
use openscale.Base.{
  ℕ, ◌==◌, Text, codes, List, [], ◌∷◌, ◌++◌, Option, none, some, Bool, true, false, if◌then◌else◌,
}
use openscale.Base.Decimal.{show}
use openscale.Pipelines.Runs.{Status, good, warn, crit}
use openscale.Pipelines.Events.{JobRunEventsState, Frame, on_message, reducer, Action}
use openscale.Streaming.Frames.{ConnectionStatus, connecting, live, disconnected, TripEvent}
use openscale.Streaming.Replay.{ReplayState, set_active_job, is_active, same_id}
use openscale.Streaming.ReplayForm.{
  Parsed, FormState, FormField, ReplayParams, Control, handle_submit, set_field, on_click,
}

unfoldable pub status_label : ConnectionStatus → Text
status_label connecting = codes "Connecting…"
status_label live = codes "Live"
status_label disconnected = codes "Disconnected — retrying…"

unfoldable pub status_led : ConnectionStatus → Status
status_led connecting = warn
status_led live = good
status_led disconnected = crit

-- `panel` is the state of `useJobRunEvents(activeJobId)`, `start_pending` and `start_error` those of
-- `useStartReplay`; `started` collects the replays asked for, newest last.
pub record ScreenState : Type 0 where
  pub replay : ReplayState
  pub form : FormState
  pub panel : JobRunEventsState
  pub start_pending : Bool
  pub start_error : Option Text
  pub started : List ReplayParams

unfoldable pub active : ScreenState → Bool
active s = is_active s.replay.active_job_id s.panel.state

-- What can happen: an edit or a submission of the form, a click on the row of a replay in flight,
-- the answer to a start, and a frame of the run's socket.
pub data ScreenEvent : Type 0 where
  edits : FormField → Text → ScreenEvent
  submits : ScreenEvent
  clicks : Control → ScreenEvent
  start_succeeded : Text → ScreenEvent
  start_failed : Text → ScreenEvent
  frame : Frame → ScreenEvent

abbrev pub ask : Option ReplayParams → ScreenState → ScreenState
ask none s = s
ask (some params) s = record s {
  start_pending = true;
  start_error = none;
  started = s.started ++ params ∷ [];
}

-- `onSuccess`: another job resets the panel, by the effect on the job's id.
unfoldable pub on_started : Text → ScreenState → ScreenState
unfolding set_active_job reducer
on_started id s = record s {
  start_pending = false;
  replay = set_active_job (some id) s.replay;
  panel =
      if same_id s.replay.active_job_id (some id) then s.panel else reducer s.panel Action.reset;
}

-- The row of a replay in flight is there only while one is active, and the form only while none is;
-- a disabled field takes no edit.
module _ (tenth : ℕ) (number : Text → Parsed) where
  unfoldable pub screen_step : ScreenState → ScreenEvent → ScreenState
  unfolding on_started active
  screen_step s (edits field value) =
      if active s
      then s
      else if s.start_pending
      then s
      else record s { form = set_field field value s.form }
  screen_step s submits =
      if active s then s else ask (handle_submit tenth number s.start_pending false s.form) s
  screen_step s (clicks control) =
      if active s then record s { replay = on_click control s.replay } else s
  screen_step s (start_succeeded id) = on_started id s
  screen_step s (start_failed message) = record s {
    start_pending = false;
    start_error = some message;
  }
  screen_step s (frame f) = record s { panel = on_message s.panel f }

  unfoldable pub screen_steps : ScreenState → List ScreenEvent → ScreenState
  screen_steps s [] = s
  screen_steps s (e ∷ es) = screen_steps (screen_step s e) es

pub record KafkaTopic (Number : Type 0) : Type 0 where
  pub name : Text
  pub partitions : ℕ
  pub message_count : Number

pub record TopicsSnapshot (Number : Type 0) : Type 0 where
  pub topics : List (KafkaTopic Number)
  pub broker_reachable : Bool

-- A query of the query library: `isLoading`, `isError`, `data`.
pub record Query (A : Type 0) : Type 0 where
  pub is_loading : Bool
  pub is_error : Bool
  pub result : Option A

module _ {Number : Type 0} (locale : Number → Text) where
  abbrev pub topic_words : KafkaTopic Number → List Text
  topic_words topic =
      topic.name
      ∷ (show topic.partitions
          ++ (codes " partition"
              ++ ((if topic.partitions == 1 then [] else codes "s")
                  ++ (codes " · " ++ (locale topic.message_count ++ codes " messages")))))
      ∷ []

  unfoldable pub topics_words : List (KafkaTopic Number) → List Text
  topics_words [] = []
  topics_words (t ∷ ts) = topic_words t ++ topics_words ts

  abbrev pub snapshot_words : TopicsSnapshot Number → List Text
  snapshot_words snapshot = elim snapshot.broker_reachable [
    | false ↦
        codes
          "Kafka unreachable -- the broker isn't responding. Check the openscale-kafka container."
        ∷ []
    | true ↦ elim snapshot.topics [
      | [] ↦
          codes "Kafka has no topics yet -- start a replay below to create yellow-taxi-trips." ∷ []
      | t ∷ ts ↦ topics_words (t ∷ ts)
    ]
  ]

  abbrev pub answer_words : Bool → Option (TopicsSnapshot Number) → List Text
  answer_words true result = codes "Failed to load topics. Is the control-plane running?" ∷ []
  answer_words false none = codes "Failed to load topics. Is the control-plane running?" ∷ []
  answer_words false (some snapshot) = snapshot_words snapshot

  -- The texts of the topics panel under its heading.
  unfoldable pub topics_panel : Query (TopicsSnapshot Number) → List Text
  unfolding topics_words
  topics_panel query =
      if query.is_loading
      then codes "Loading topics…" ∷ []
      else answer_words query.is_error query.result

-- `text_of` is the text of a number, `miles` is `toFixed(1)`, `currency` is `formatCurrency` and
-- `time` is `formatPickupTime`.
module _ {Number : Type 0} (text_of miles currency : Number → Text) (time : Text → Text) where
  abbrev pub trip_words : TripEvent Number → List Text
  trip_words trip =
      time trip.pickup_at
      ∷ (codes "zone "
          ++ (text_of trip.pickup_location_id ++ (codes " → " ++ text_of trip.dropoff_location_id)))
      ∷ (miles trip.trip_distance_miles ++ codes " mi")
      ∷ currency trip.fare_amount
      ∷ []

  abbrev pub trips_words : List (TripEvent Number) → List Text
  trips_words [] = []
  trips_words (t ∷ ts) = trip_words t ++ trips_words ts

  unfoldable pub live_event_feed : List (TripEvent Number) → List Text
  live_event_feed [] =
      codes "No trip events yet -- start a replay above to see live trips here." ∷ []
  live_event_feed (t ∷ ts) = trips_words (t ∷ ts)
