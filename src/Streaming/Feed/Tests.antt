-- ===== src/Streaming/Feed/Tests.antt =====
-- A feed of numbered trips.
use openscale.Base.{ℕ, List, [], ◌∷◌, codes}
use openscale.Streaming.Frames.{StreamFrame}
use openscale.Streaming.Feed.{on_frames, initial_feed}
use openscale.Streaming.Feed.Laws.{Shows, on_frames-Shows, trips_onto, windows_onto}

abbrev numbered : ℕ → StreamFrame ℕ
numbered n = StreamFrame.trip (record {
  pickup_at = codes "08:15";
  dropoff_at = codes "08:31";
  pickup_location_id = n;
  dropoff_location_id = 236;
  passenger_count = 1;
  trip_distance_miles = 3;
  fare_amount = 14;
  tip_amount = 2;
  total_amount = 19;
  payment_type = 1;
})

abbrev tick : StreamFrame ℕ
tick = StreamFrame.window (record {
  trip_count = 4;
  messages_per_second = 2;
  total_revenue = 77;
  avg_fare = 14;
  avg_distance_miles = 3;
  window_ended_at = codes "08:16";
})

abbrev frames : List (StreamFrame ℕ)
frames = numbered 1 ∷ tick ∷ numbered 2 ∷ tick ∷ numbered 3 ∷ []

on_frames-Shows_example :
    Shows (on_frames initial_feed frames) (trips_onto [] frames) (windows_onto [] frames)
on_frames-Shows_example = on_frames-Shows frames
