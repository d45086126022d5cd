-- ===== src/Pipelines/Events/Laws.antt =====
-- What the log panel shows after a stream of frames, and when the promise of the final state
-- settles.
use openscale.Base.{
  Text, List, [], ◌∷◌, ◌++◌, Option, some, ◌≡◌, refl, ◌∙◌, append-cons, append-nil, All,
}
use openscale.Pipelines.Runs.{JobState}
use openscale.Pipelines.Events.{
  Frame, malformed, other, JobRunEventsState, backfilled_lines, on_message, on_messages,
}

-- The frames after the backfill.
abbrev pub IsLive : Frame → Type 0
IsLive (Frame.backfill state log_output) = ⊥
IsLive _ = Unit

-- The lines that the `log` events carry, in order.
abbrev pub logged : List Frame → List Text
logged [] = []
logged (Frame.log line ∷ fs) = line ∷ logged fs
logged (_ ∷ fs) = logged fs

-- The state of the last `status` event, or the given one.
abbrev pub last_status : JobState → List Frame → JobState
last_status state [] = state
last_status state (Frame.status next ∷ fs) = last_status next fs
last_status state (_ ∷ fs) = last_status state fs

on_messages-live :
    (state : JobState) (lines : List Text) (fs : List Frame)
    → All IsLive fs
    → on_messages (record { state = some state; log_lines = lines }) fs
      ≡ record { state = some (last_status state fs); log_lines = lines ++ logged fs }
unfolding on_messages on_message
on_messages-live state lines [] h = rw append-nil
on_messages-live state lines (malformed ∷ fs) h = on_messages-live state lines fs h.1
on_messages-live state lines (other ∷ fs) h = on_messages-live state lines fs h.1
on_messages-live state lines (Frame.status next ∷ fs) h = on_messages-live next lines fs h.1
on_messages-live state lines (Frame.log line ∷ fs) h =
    rw (append-cons lines line (logged fs)) (on_messages-live state (lines ++ line ∷ []) fs h.1)
on_messages-live state lines (Frame.backfill next out ∷ fs) h = elim h.0 [ ]

pub on_messages-append :
    (s : JobRunEventsState) (fs gs : List Frame)
    → on_messages s (fs ++ gs) ≡ on_messages (on_messages s fs) gs
unfolding on_messages
on_messages-append s [] gs = refl
on_messages-append s (f ∷ fs) gs = on_messages-append (on_message s f) fs gs

-- Whatever came before, a backfill frame replaces the panel's content by its own lines; the log
-- events after it are appended in order, once each, and the state is the last one reported.
pub on_messages-backfill :
    (s : JobRunEventsState) (earlier : List Frame) (state : JobState) (out : Option Text)
    (fs : List Frame)
    → All IsLive fs
    → on_messages s (earlier ++ Frame.backfill state out ∷ fs) ≡ record {
      state = some (last_status state fs);
      log_lines = backfilled_lines out ++ logged fs;
    }
unfolding on_messages on_message
on_messages-backfill s earlier state out fs h =
    on_messages-append s earlier (Frame.backfill state out ∷ fs)
    ∙ on_messages-live state (backfilled_lines out) fs h
