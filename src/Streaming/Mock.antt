-- ===== src/Streaming/Mock.antt =====
-- frontend/src/domains/streaming/infrastructure/mockStreamingGateway.ts: the stand-in for the live
-- socket, as the frames of its interval's ticks.
mod Laws
mod Tests
use openscale.Base.{
  ℕ, zero, suc, ◌+◌, ◌%◌, ◌==◌, Text, codes, List, [], ◌∷◌, ◌++◌, Option, none, some, Bool, true,
  false, if◌then◌else◌,
}
use openscale.Pipelines.Runs.{JobRun, JobState, Params}
use openscale.Streaming.Frames.{TripEvent, WindowAggregate, StreamFrame, trip, window}
use openscale.Streaming.Feed.{Feed, on_frames, set_status, initial_feed}
use openscale.Streaming.Frames.{ConnectionStatus, live}
use openscale.Streaming.Screen.{KafkaTopic, TopicsSnapshot}

-- `decimal n k` is the number of the host language that is written with the digits of `n`, `k` of
-- them behind the point.
module _ {Number : Type 0} (decimal : ℕ → ℕ → Number) where
  unfoldable pub mock_trip : TripEvent Number
  mock_trip = record {
    pickup_at = codes "2024-01-01T08:15:00.000Z";
    dropoff_at = codes "2024-01-01T08:31:00.000Z";
    pickup_location_id = decimal 132 0;
    dropoff_location_id = decimal 236 0;
    passenger_count = decimal 1 0;
    trip_distance_miles = decimal 32 1;
    fare_amount = decimal 145 1;
    tip_amount = decimal 25 1;
    total_amount = decimal 193 1;
    payment_type = decimal 1 0;
  }

  -- The trip of tick `i`.
  abbrev pub trip_at : ℕ → TripEvent Number
  trip_at i = record mock_trip { pickup_location_id = decimal (100 + i % 50) 0 }

  -- The window of a tick at `now`.
  abbrev pub window_at : Text → WindowAggregate Number
  window_at now = record {
    trip_count = decimal 4 0;
    messages_per_second = decimal 2 0;
    total_revenue = decimal 772 1;
    avg_fare = decimal 145 1;
    avg_distance_miles = decimal 32 1;
    window_ended_at = now;
  }

  -- What tick `i` hands to `onFrame`, at `now`.
  unfoldable pub tick_frames : ℕ → Text → List (StreamFrame Number)
  unfolding mock_trip
  tick_frames i now =
      StreamFrame.trip (trip_at i)
      ∷ (if i % 2 == 0 then StreamFrame.window (window_at now) ∷ [] else [])

  -- The feed after `n` ticks, where `clock i` is the time of tick `i`; the status is live from the
  -- start.
  unfoldable pub connected : (ℕ → Text) → ℕ → Feed Number
  unfolding initial_feed set_status
  connected clock zero = set_status initial_feed live
  connected clock (suc n) = on_frames (connected clock n) (tick_frames (suc n) (clock (suc n)))

  unfoldable pub list_topics : TopicsSnapshot Number
  list_topics = record {
    topics =
        record { name = codes "yellow-taxi-trips"; partitions = 1; message_count = decimal 1245 0 }
        ∷ [];
    broker_reachable = true;
  }

-- `params` is the copy of the form's parameters and `limit` their limit.
unfoldable pub start_replay : Text → Params → ℕ → JobRun
start_replay now params limit = record {
  id = codes "mock-replay-run";
  job_type = codes "replay";
  params = params;
  state = JobState.succeeded;
  submitted_at = now;
  started_at = none;
  finished_at = some now;
  error = none;
  rows_processed = some limit;
}
