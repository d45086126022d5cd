-- ===== src/Streaming/Mock/Tests.antt =====
-- Three ticks.
use openscale.Base.{ℕ, codes, [], ◌∷◌, length, map, ◌≡◌, refl}
use openscale.Streaming.Feed.{on_frames, on_frame}
use openscale.Streaming.Mock.{connected, tick_frames, mock_trip}

abbrev parts : ℕ → ℕ → ℕ × ℕ
parts n k = (n, k)

newest_first :
    map (λ t. t.pickup_location_id) (connected parts (λ i. codes "8:00") 3).trips
    ≡ (103, 0) ∷ (102, 0) ∷ (101, 0) ∷ []
unfolding connected on_frames on_frame tick_frames mock_trip
newest_first = refl

one_window : length (connected parts (λ i. codes "8:00") 3).window_history ≡ 1
unfolding connected on_frames on_frame tick_frames mock_trip
one_window = refl
