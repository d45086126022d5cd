-- ===== src/Pipelines/Events/Wait.antt =====
-- When the promise of a run's final state settles.
use openscale.Base.{
  List, [], ◌∷◌, ◌++◌, some, true, false, ◌≡◌, ◌≢◌, refl, ap, sym, ◌∙◌, ◌↔◌, inl, inr, arith, All,
  map, map-append, append-nil, Bool-cases, Option-cases,
}
use openscale.Pipelines.Runs.{JobState, is_terminal}
use openscale.Pipelines.Events.{
  Frame, malformed, other, JobRunEventsState, on_message, on_messages, SocketEvent, message,
  failure, closed, Settled, pending, resolved, rejected, carried_state, wait_step, wait_from,
  wait_for_run_terminal,
}
use openscale.Pipelines.Events.Laws.{on_messages-append}

wait_from-settled : (p : Settled) (es : List SocketEvent) → p ≢ pending → wait_from p es ≡ p
unfolding wait_from wait_step
wait_from-settled p [] h = refl
wait_from-settled pending (e ∷ es) h = absurd (h refl)
wait_from-settled (resolved s) (message f ∷ es) h = wait_from-settled (resolved s) es h
wait_from-settled (resolved s) (failure ∷ es) h = wait_from-settled (resolved s) es h
wait_from-settled (resolved s) (closed ∷ es) h = wait_from-settled (resolved s) es h
wait_from-settled rejected (message f ∷ es) h = wait_from-settled rejected es h
wait_from-settled rejected (failure ∷ es) h = wait_from-settled rejected es h
wait_from-settled rejected (closed ∷ es) h = wait_from-settled rejected es h

-- An event that does not settle the promise: a frame that carries no terminal state, or the close
-- of the socket.
abbrev pub IsQuiet : SocketEvent → Type 0
IsQuiet (message f) = (s : JobState) → carried_state f ≡ some s → is_terminal s ≡ false
IsQuiet failure = ⊥
IsQuiet closed = Unit

-- A frame that carries the terminal state `s`.
abbrev pub Carries : Frame → JobState → Type 0
Carries f s = (carried_state f ≡ some s) × (is_terminal s ≡ true)

wait_step-quiet : (e : SocketEvent) → IsQuiet e → wait_step pending e ≡ pending
unfolding wait_step
wait_step-quiet (message f) q = elim (Option-cases (carried_state f)) [
  | inl nothing ↦ rw nothing
  | inr (s, carried) ↦ rw (carried, q s carried)
]
wait_step-quiet failure q = absurd q
wait_step-quiet closed q = refl

wait_step-Carries :
    (f : Frame) (s : JobState) → Carries f s → wait_step pending (message f) ≡ resolved s
unfolding wait_step
wait_step-Carries f s c = rw (c.0, c.1)

data StepCase : SocketEvent → Type 0 where
  quiet : {e : SocketEvent} → IsQuiet e → StepCase e
  final : {f : Frame} {s : JobState} → Carries f s → StepCase (message f)
  broken : StepCase failure

step_case : (e : SocketEvent) → StepCase e
step_case (message f) = elim (Option-cases (carried_state f)) [
  | inl nothing ↦ quiet (λ s carried. cc)
  | inr (s, carried) ↦ elim (Bool-cases (is_terminal s)) [
    | inl terminal ↦ final (carried, terminal)
    | inr live ↦ quiet (λ t other_state. ground arith)
  ]
]
step_case failure = broken
step_case closed = quiet tt

wait_from-quiet :
    (before es : List SocketEvent)
    → All IsQuiet before
    → wait_from pending (before ++ es) ≡ wait_from pending es
unfolding wait_from
wait_from-quiet [] es h = refl
wait_from-quiet (e ∷ before) es h =
    ap (λ p. wait_from p (before ++ es)) (wait_step-quiet e h.0) ∙ wait_from-quiet before es h.1

-- A promise that resolves does so by the first frame that carries a terminal state.
pub record ResolvedBy (events : List SocketEvent) (s : JobState) : Type 0 where
  pub before : List SocketEvent
  pub frame : Frame
  pub after : List SocketEvent
  pub split : events ≡ before ++ message frame ∷ after
  pub quiet_before : All IsQuiet before
  pub carries : Carries frame s

ResolvedBy-cons :
    (e : SocketEvent) {es : List SocketEvent} {s : JobState}
    → IsQuiet e
    → ResolvedBy es s
    → ResolvedBy (e ∷ es) s
ResolvedBy-cons e q r = record {
  before = e ∷ r.before;
  frame = r.frame;
  after = r.after;
  split = ap (◌∷◌ e) r.split;
  quiet_before = (q, r.quiet_before);
  carries = r.carries;
}

wait_from-Carries :
    (f : Frame) (s : JobState) (es : List SocketEvent)
    → Carries f s
    → wait_from pending (message f ∷ es) ≡ resolved s
unfolding wait_from
wait_from-Carries f s es c =
    ap (λ p. wait_from p es) (wait_step-Carries f s c) ∙ wait_from-settled (resolved s) es (λ e. cc)

wait_from-failure : (es : List SocketEvent) → wait_from pending (failure ∷ es) ≡ rejected
unfolding wait_from wait_step
wait_from-failure es = wait_from-settled rejected es (λ e. cc)

resolved-injective : (s t : JobState) → resolved s ≡ resolved t → s ≡ t
resolved-injective s t e = cc

ResolvedBy-step :
    {e : SocketEvent} (es : List SocketEvent) (s : JobState)
    → StepCase e
    → (wait_from pending es ≡ resolved s → ResolvedBy es s)
    → wait_from pending (e ∷ es) ≡ resolved s
    → ResolvedBy (e ∷ es) s
ResolvedBy-step es s (quiet {e} q) ih h =
    ResolvedBy-cons e q (ih (sym (wait_from-quiet (e ∷ []) es (q, tt)) ∙ h))
ResolvedBy-step es s (final {f} {s = t} c) ih h =
    let same = resolved-injective t s (sym (wait_from-Carries f t es c) ∙ h) in
    record {
      before = [];
      frame = f;
      after = es;
      split = refl;
      quiet_before = tt;
      carries = rw (← same) c;
    }
ResolvedBy-step es s broken ih h = cc (wait_from-failure es)

wait_from-ResolvedBy :
    (es : List SocketEvent) (s : JobState) → wait_from pending es ≡ resolved s → ResolvedBy es s
unfolding wait_from
wait_from-ResolvedBy [] s h = cc
wait_from-ResolvedBy (e ∷ es) s h = ResolvedBy-step es s (step_case e) (wait_from-ResolvedBy es s) h

All-IsQuiet-step :
    {e : SocketEvent} (es : List SocketEvent)
    → StepCase e
    → (wait_from pending es ≡ pending → All IsQuiet es)
    → wait_from pending (e ∷ es) ≡ pending
    → All IsQuiet (e ∷ es)
All-IsQuiet-step es (quiet {e} q) ih h = (q, ih (sym (wait_from-quiet (e ∷ []) es (q, tt)) ∙ h))
All-IsQuiet-step es (final {f} {s} c) ih h = cc (wait_from-Carries f s es c)
All-IsQuiet-step es broken ih h = cc (wait_from-failure es)

wait_from-All : (es : List SocketEvent) → wait_from pending es ≡ pending → All IsQuiet es
wait_from-All [] h = tt
wait_from-All (e ∷ es) h = All-IsQuiet-step es (step_case e) (wait_from-All es) h

-- The promise resolves to `s` exactly if some frame carries the terminal state `s` and every event
-- before it is quiet: no earlier terminal state and no socket error.
pub wait-resolved_iff :
    (events : List SocketEvent) (s : JobState)
    → (wait_for_run_terminal events ≡ resolved s) ↔ ResolvedBy events s
unfolding wait_for_run_terminal
wait-resolved_iff events s = (
  wait_from-ResolvedBy events s,
  λ r.
      ap (wait_from pending) r.split
      ∙ (wait_from-quiet r.before _ r.quiet_before ∙ wait_from-Carries r.frame s r.after r.carries),
)

wait_from-nil : wait_from pending [] ≡ pending
unfolding wait_from
wait_from-nil = refl

-- The promise is still pending exactly if every event so far is quiet. A close of the socket is
-- quiet, so a connection that is closed before a terminal state leaves it pending for good.
pub wait-pending_iff :
    (events : List SocketEvent) → (wait_for_run_terminal events ≡ pending) ↔ All IsQuiet events
unfolding wait_for_run_terminal
wait-pending_iff events = (
  wait_from-All events,
  λ q.
      ap (wait_from pending) (sym (append-nil events))
      ∙ (wait_from-quiet events [] q ∙ wait_from-nil),
)

wait_from-append :
    (p : Settled) (es : List SocketEvent) (e : SocketEvent)
    → wait_from p (es ++ e ∷ []) ≡ wait_step (wait_from p es) e
unfolding wait_from
wait_from-append p [] e = refl
wait_from-append p (d ∷ es) e = wait_from-append (wait_step p d) es e

carried-of_resolved :
    (f : Frame) (s : JobState)
    → wait_step pending (message f) ≡ resolved s
    → carried_state f ≡ some s
unfolding wait_step
carried-of_resolved f s h = ground arith

pub on_message-carried :
    (panel : JobRunEventsState) (f : Frame) (s : JobState)
    → carried_state f ≡ some s
    → (on_message panel f).state ≡ some s
unfolding on_message
on_message-carried panel malformed s h = cc
on_message-carried panel other s h = cc
on_message-carried panel (Frame.status t) s h = h
on_message-carried panel (Frame.log line) s h = cc
on_message-carried panel (Frame.backfill t out) s h = h

on_messages-one :
    (panel : JobRunEventsState) (f : Frame) → on_messages panel (f ∷ []) ≡ on_message panel f
unfolding on_messages
on_messages-one panel f = refl

-- The two readers of the protocol agree: when a frame resolves the promise to `s`, the log panel
-- that has received the same frames shows `s`.
on_messages-wait :
    (panel : JobRunEventsState) (fs : List Frame) (f : Frame) (s : JobState)
    → wait_for_run_terminal (map message fs) ≡ pending
    → wait_for_run_terminal (map message (fs ++ f ∷ [])) ≡ resolved s
    → (on_messages panel (fs ++ f ∷ [])).state ≡ some s
unfolding wait_for_run_terminal
on_messages-wait panel fs f s h k =
    let carried = carried-of_resolved f s (
      ap (λ p. wait_step p (message f)) (sym h)
      ∙ (sym (wait_from-append pending (map message fs) (message f))
          ∙ (ap (wait_from pending) (sym (map-append message fs (f ∷ []))) ∙ k))) in
    ap (λ p. p.state) (on_messages-append panel fs (f ∷ []) ∙ on_messages-one _ f)
    ∙ on_message-carried (on_messages panel fs) f s carried
