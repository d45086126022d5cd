-- ===== src/Streaming/Feed.antt =====
-- frontend/src/domains/streaming/application/useLiveTripStream.ts: the state of the live feed.
mod Laws
mod Tests
use openscale.Base.{ℕ, List, [], ◌∷◌, ◌++◌, Option, none, some, take, take_last}
use openscale.Streaming.Frames.{
  TripEvent, WindowAggregate, StreamFrame, trip, window, ConnectionStatus, connecting,
}

abbrev pub max_trips : ℕ
max_trips = 20

abbrev pub max_window_history : ℕ
max_window_history = 30

pub record Feed (Number : Type 0) : Type 0 where
  pub status : ConnectionStatus
  pub trips : List (TripEvent Number)
  pub latest_window : Option (WindowAggregate Number)
  pub window_history : List (WindowAggregate Number)

module _ {Number : Type 0} where
  unfoldable pub initial_feed : Feed Number
  initial_feed = record {
    status = connecting;
    trips = [];
    latest_window = none;
    window_history = [];
  }

  unfoldable pub set_status : Feed Number → ConnectionStatus → Feed Number
  set_status feed s = record feed { status = s }

  unfoldable pub on_frame : Feed Number → StreamFrame Number → Feed Number
  on_frame feed (StreamFrame.trip t) = record feed { trips = take max_trips (t ∷ feed.trips) }
  on_frame feed (StreamFrame.window w) = record feed {
    latest_window = some w;
    window_history = take_last max_window_history (feed.window_history ++ w ∷ []);
  }

  unfoldable pub on_frames : Feed Number → List (StreamFrame Number) → Feed Number
  on_frames feed [] = feed
  on_frames feed (f ∷ fs) = on_frames (on_frame feed f) fs
