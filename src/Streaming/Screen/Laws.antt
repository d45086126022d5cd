-- ===== src/Streaming/Screen/Laws.antt =====
-- The replay's commands against the events of its run.
use openscale.Base.{
  ℕ, Text, List, [], ◌∷◌, Option, none, some, true, false, ◌≡◌, refl, ap, ap₂, ◌∙◌, Bool-cases, inl,
  inr, All,
}
use openscale.Pipelines.Runs.{JobState, is_terminal}
use openscale.Pipelines.Events.{JobRunEventsState, Frame, on_message, carried_state}
use openscale.Pipelines.Events.Wait.{on_message-carried}
use openscale.Streaming.Replay.{is_active}
use openscale.Streaming.ReplayForm.{Parsed, ReplayParams, handle_submit}
use openscale.Streaming.Screen.{
  ScreenState, ScreenEvent, edits, submits, clicks, start_succeeded, start_failed, frame, active,
  ask, screen_step, screen_steps,
}

-- What the user does, or a start that fails: no new job and no frame.
abbrev pub IsLocal : ScreenEvent → Type 0
IsLocal (edits field value) = Unit
IsLocal submits = Unit
IsLocal (clicks control) = Unit
IsLocal (start_failed reason) = Unit
IsLocal (start_succeeded id) = ⊥
IsLocal (frame f) = ⊥

-- The replay and the panel are as before.
record IsSame (s t : ScreenState) : Type 0 where
  replay : t.replay ≡ s.replay
  panel : t.panel ≡ s.panel

active-IsSame : {s t : ScreenState} → IsSame s t → active t ≡ active s
unfolding active
active-IsSame p = ap₂ (λ r q. is_active r.active_job_id q.state) p.replay p.panel

module _ (tenth : ℕ) (number : Text → Parsed) where
  ask-IsSame : (params : Option ReplayParams) (s : ScreenState) → IsSame s (ask params s)
  ask-IsSame none s = record { replay = refl; panel = refl }
  ask-IsSame (some params) s = record { replay = refl; panel = refl }

  local-IsSame :
      (s : ScreenState) (e : ScreenEvent)
      → active s ≡ false
      → IsLocal e
      → IsSame s (screen_step tenth number s e)
  unfolding screen_step
  local-IsSame s (edits field value) h l = elim (Bool-cases s.start_pending) [
    | inl e ↦ rw (h, e) (record { replay = refl; panel = refl })
    | inr e ↦ rw (h, e) (record { replay = refl; panel = refl })
  ]
  local-IsSame s submits h l =
      rw h (ask-IsSame (handle_submit tenth number s.start_pending false s.form) s)
  local-IsSame s (clicks control) h l = rw h (record { replay = refl; panel = refl })
  local-IsSame s (start_failed reason) h l = record { replay = refl; panel = refl }
  local-IsSame s (start_succeeded id) h l = absurd l
  local-IsSame s (frame f) h l = absurd l

  locals-IsSame :
      (s : ScreenState) (es : List ScreenEvent)
      → active s ≡ false
      → All IsLocal es
      → IsSame s (screen_steps tenth number s es)
  unfolding screen_steps
  locals-IsSame s [] h l = record { replay = refl; panel = refl }
  locals-IsSame s (e ∷ es) h l =
      let first = local-IsSame s e h l.0 in
      let now = active-IsSame first ∙ h in
      let rest = locals-IsSame (screen_step tenth number s e) es now l.1 in
      record { replay = rest.replay ∙ first.replay; panel = rest.panel ∙ first.panel }

  -- No further command has been sent, and the row of the controls is gone.
  pub record IsOver (s t : ScreenState) : Type 0 where
    pub sent : t.replay.sent ≡ s.replay.sent
    pub gone : active t ≡ false

  terminal-gone :
      (id : Option Text) (panel : JobRunEventsState) (state : JobState)
      → panel.state ≡ some state
      → is_terminal state ≡ true
      → is_active id panel.state ≡ false
  terminal-gone none panel state e t = refl
  terminal-gone (some id) panel state e t = rw e (rw t refl)

  -- Once a frame has told that the run of the replay has ended, whatever came before, nothing that
  -- the user does sends a command to it, until a new replay is started or a further frame comes.
  pub screen_steps-IsOver :
      (s : ScreenState) (f : Frame) (state : JobState) (es : List ScreenEvent)
      → carried_state f ≡ some state
      → is_terminal state ≡ true
      → All IsLocal es
      → IsOver s (screen_steps tenth number s (frame f ∷ es))
  unfolding screen_steps screen_step active
  screen_steps-IsOver s f state es c t l =
      let told = on_message-carried s.panel f state c in
      let ended = screen_step tenth number s (frame f) in
      let gone = terminal-gone s.replay.active_job_id (on_message s.panel f) state told t in
      let later = locals-IsSame ended es gone l in
      record { sent = ap (λ r. r.sent) later.replay; gone = active-IsSame later ∙ gone }
