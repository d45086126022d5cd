-- ===== src/Streaming/Mock/Laws.antt =====
-- What the feed shows of the mock.
use openscale.Base.{
  ℕ, zero, suc, ◌%◌, ◌==◌, Text, List, [], ◌∷◌, Bool, true, false, take, ◌≡◌, refl, ap, ◌∙◌,
  take-cons-take, if◌then◌else◌,
}
use openscale.Streaming.Frames.{TripEvent, WindowAggregate, StreamFrame, live}
use openscale.Streaming.Feed.{Feed, on_frame, on_frames, max_trips}
use openscale.Streaming.Mock.{tick_frames, trip_at, connected}

module _ {Number : Type 0} (decimal : ℕ → ℕ → Number) where
  -- The trips of the ticks so far, newest first.
  abbrev pub trips_down : ℕ → List (TripEvent Number)
  trips_down zero = []
  trips_down (suc n) = trip_at decimal (suc n) ∷ trips_down n

  on_frames-if_window :
      (feed : Feed Number) (b : Bool) (w : WindowAggregate Number)
      → ((on_frames feed (if b then StreamFrame.window w ∷ [] else [])).trips ≡ feed.trips)
        × ((on_frames feed (if b then StreamFrame.window w ∷ [] else [])).status ≡ feed.status)
  unfolding on_frames on_frame
  on_frames-if_window feed true w = (refl, refl)
  on_frames-if_window feed false w = (refl, refl)

  -- However long the mock runs, the feed is live and shows the trips of the last 20 ticks, newest
  -- first, or of all ticks while there are fewer.
  connected-trips :
      (clock : ℕ → Text) (n : ℕ)
      → ((connected decimal clock n).status ≡ live)
        × ((connected decimal clock n).trips ≡ take max_trips (trips_down n))
  unfolding connected on_frames on_frame tick_frames
  connected-trips clock zero = (refl, refl)
  connected-trips clock (suc n) =
      let before = connected-trips clock n in
      let kept =
        on_frames-if_window
          (on_frame (connected decimal clock n) (StreamFrame.trip (trip_at decimal (suc n))))
          (suc n % 2 == 0) _ in
      (
        kept.1 ∙ before.0,
        kept.0
            ∙ (ap (λ l. take max_trips (trip_at decimal (suc n) ∷ l)) before.1
                ∙ take-cons-take max_trips (trip_at decimal (suc n)) (trips_down n)),
      )
