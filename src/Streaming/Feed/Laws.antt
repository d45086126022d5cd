-- ===== src/Streaming/Feed/Laws.antt =====
-- The bounded feed against the whole history of frames.
use openscale.Base.{
  List, [], ◌∷◌, ◌++◌, Option, none, some, take, take_last, ◌≡◌, refl, ap, ◌∙◌, take-cons-take,
  take_last-push,
}
use openscale.Streaming.Frames.{TripEvent, WindowAggregate, StreamFrame}
use openscale.Streaming.Feed.{
  Feed, initial_feed, on_frame, on_frames, max_trips, max_window_history,
}

module _ {Number : Type 0} where
  -- All trips received, newest first, in front of those before.
  abbrev pub trips_onto :
      List (TripEvent Number) → List (StreamFrame Number) → List (TripEvent Number)
  trips_onto earlier [] = earlier
  trips_onto earlier (StreamFrame.trip t ∷ fs) = trips_onto (t ∷ earlier) fs
  trips_onto earlier (StreamFrame.window w ∷ fs) = trips_onto earlier fs

  -- All windows received, oldest first, behind those before.
  abbrev pub windows_onto :
      List (WindowAggregate Number) → List (StreamFrame Number) → List (WindowAggregate Number)
  windows_onto earlier [] = earlier
  windows_onto earlier (StreamFrame.trip t ∷ fs) = windows_onto earlier fs
  windows_onto earlier (StreamFrame.window w ∷ fs) = windows_onto (earlier ++ w ∷ []) fs

  abbrev pub last_of :
      Option (WindowAggregate Number)
      → List (WindowAggregate Number)
      → Option (WindowAggregate Number)
  last_of o [] = o
  last_of o (w ∷ ws) = last_of (some w) ws

  -- The feed holds the newest part of a history.
  pub record Shows (feed : Feed Number) (trips : List (TripEvent Number))
      (windows : List (WindowAggregate Number)) : Type 0 where
    pub newest_trips : feed.trips ≡ take max_trips trips
    pub newest_windows : feed.window_history ≡ take_last max_window_history windows
    pub latest : feed.latest_window ≡ last_of none windows

  last_of-push :
      (o : Option (WindowAggregate Number)) (ws : List (WindowAggregate Number))
      (w : WindowAggregate Number)
      → some w ≡ last_of o (ws ++ w ∷ [])
  last_of-push o [] w = refl
  last_of-push o (x ∷ ws) w = last_of-push (some x) ws w

  on_frames-Shows_from :
      (feed : Feed Number) (ts : List (TripEvent Number)) (ws : List (WindowAggregate Number))
      (fs : List (StreamFrame Number))
      → Shows feed ts ws
      → Shows (on_frames feed fs) (trips_onto ts fs) (windows_onto ws fs)
  unfolding on_frames on_frame
  on_frames-Shows_from feed ts ws [] h = h
  on_frames-Shows_from feed ts ws (StreamFrame.trip t ∷ fs) h =
      on_frames-Shows_from (on_frame feed (StreamFrame.trip t)) (t ∷ ts) ws fs (record {
        newest_trips =
            ap (λ l. take max_trips (t ∷ l)) h.newest_trips ∙ take-cons-take max_trips t ts;
        newest_windows = h.newest_windows;
        latest = h.latest;
      })
  on_frames-Shows_from feed ts ws (StreamFrame.window w ∷ fs) h =
      on_frames-Shows_from (on_frame feed (StreamFrame.window w)) ts (ws ++ w ∷ []) fs (record {
        newest_trips = h.newest_trips;
        newest_windows =
            ap (λ l. take_last max_window_history (l ++ w ∷ [])) h.newest_windows
            ∙ take_last-push max_window_history ws w;
        latest = last_of-push none ws w;
      })

  -- After any frames, the screen's feed shows of the whole history exactly the 20 newest trips,
  -- newest first, the 30 newest windows, oldest first, and the last window.
  pub on_frames-Shows :
      (fs : List (StreamFrame Number))
      → Shows (on_frames initial_feed fs) (trips_onto [] fs) (windows_onto [] fs)
  unfolding initial_feed
  on_frames-Shows fs =
      on_frames-Shows_from initial_feed [] [] fs
        (record { newest_trips = refl; newest_windows = refl; latest = refl })
