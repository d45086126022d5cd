-- ===== src/Streaming/Replay/Tests.antt =====
-- A replay that is paused, sped up and resumed; the next one starts afresh.
use openscale.Base.{codes, [], ◌∷◌, none, some, false, ◌≡◌, refl}
use openscale.Streaming.Replay.{
  ReplayState, pause, resume, set_speed, toggle_pause, handle_speed_change, set_active_job,
}

abbrev started : ReplayState
started = record { active_job_id = some (codes "j1"); pause_intent = false; speed = 1; sent = [] }

abbrev resumed : ReplayState
resumed = toggle_pause (handle_speed_change 5 (toggle_pause started))

commands : resumed.sent ≡ (pause, none) ∷ (set_speed, some 5) ∷ (resume, none) ∷ []
unfolding toggle_pause handle_speed_change
commands = refl

next_starts_afresh : (set_active_job (some (codes "j2")) (handle_speed_change 5 started)).speed ≡ 1
unfolding set_active_job handle_speed_change
next_starts_afresh = refl
