-- ===== src/Streaming/Connect/Invariant.antt =====
-- What holds of the connection whatever the browser does.
use openscale.Base.{
  ℕ, ◌-◌, ◌≤◌, ◌<◌, true, Option, none, some, ◌≡◌, inl, inr, refl, ◌∙◌, arith, Option-cases,
}
use openscale.Streaming.Frames.{ApiFrame, StreamFrame, translate, live, disconnected}
use openscale.Streaming.Feed.{Feed, set_status, on_frame, initial_feed}
use openscale.Streaming.Connect.{
  Conn, Phase, opening, established, closing, update, backoff, open_socket, on_open, on_message,
  on_close, on_error, disconnect, connect, close_in, deliver,
}
use openscale.Streaming.Connect.Steps.{
  Step, fires, opens, receives, errs, closes, leaves, Reach, start, next,
}

close_in-none :
    (o : Option ℕ) (sockets : ℕ → Option Phase) (k : ℕ)
    → sockets k ≡ none
    → close_in o sockets k ≡ none
close_in-none none sockets k h = h
close_in-none (some j) sockets k h = ground arith

close_in-eq_some :
    (o : Option ℕ) (sockets : ℕ → Option Phase) (k : ℕ) (phase : Phase)
    → close_in o sockets k ≡ some phase
    → (q : Phase) × (sockets k ≡ some q) × (o ≡ some k → phase ≡ closing)
close_in-eq_some none sockets k phase h = (phase, h, λ e. cc)
close_in-eq_some (some j) sockets k phase h = elim (Option-cases (sockets k)) [
  | inl absent ↦ absurd (ground arith)
  | inr (q, was) ↦ (q, was, λ e. ground arith)
]

module _ {Number : Type 0} where
  status-deliver :
      (feed : Feed Number) (o : Option (StreamFrame Number)) → (deliver feed o).status ≡ feed.status
  unfolding on_frame
  status-deliver feed none = refl
  status-deliver feed (some (StreamFrame.trip t)) = refl
  status-deliver feed (some (StreamFrame.window w)) = refl

  -- At most one socket is not closed, and then no timer is pending; the pending delay is the
  -- backoff of the failures so far; after the clean-up nothing but closing sockets is left; and
  -- the status shown is true of the socket and the timer.
  pub record Inv (c : Conn Number) : Type 0 where
    pub fresh : (k : ℕ) → c.opened ≤ k → c.sockets k ≡ none
    pub current : (k : ℕ) (phase : Phase) → c.sockets k ≡ some phase → c.socket ≡ some k
    pub exclusive : (k : ℕ) (phase : Phase) → c.sockets k ≡ some phase → c.timer ≡ none
    pub delay : (d : ℕ) → c.timer ≡ some d → (0 < c.attempt) × (d ≡ backoff (c.attempt - 1))
    pub silent :
        (k : ℕ) (phase : Phase) → c.closed ≡ true → c.sockets k ≡ some phase → phase ≡ closing
    pub untimed : c.closed ≡ true → c.timer ≡ none
    pub up : (k : ℕ) → c.sockets k ≡ some established → c.feed.status ≡ live
    pub down : (d : ℕ) → c.timer ≡ some d → c.feed.status ≡ disconnected

  connect-Inv : Inv connect
  unfolding connect set_status initial_feed
  connect-Inv = grind arith

  module _ (c : Conn Number) (v : Inv c) where
    open_socket-Inv : (d : ℕ) → c.timer ≡ some d → Inv (open_socket (record c { timer = none }))
    unfolding open_socket set_status
    open_socket-Inv d h =
        grind (arith, v.fresh, v.current, v.exclusive, v.delay, v.silent, v.untimed, v.up, v.down)

    on_open-Inv :
        (k : ℕ)
        → c.sockets k ≡ some opening
        → Inv (on_open (record c { sockets = update c.sockets k (some established) }))
    unfolding on_open set_status
    on_open-Inv k h =
        grind (arith, v.fresh, v.current, v.exclusive, v.delay, v.silent, v.untimed, v.up, v.down)

    on_message-Inv : (f : ApiFrame Number) → Inv (on_message c f)
    unfolding on_message
    on_message-Inv f = record {
      fresh = v.fresh;
      current = v.current;
      exclusive = v.exclusive;
      delay = v.delay;
      silent = v.silent;
      untimed = v.untimed;
      up = λ k h. status-deliver c.feed (translate f) ∙ v.up k h;
      down = λ d h. status-deliver c.feed (translate f) ∙ v.down d h;
    }

    on_error-Inv : (k : ℕ) (phase : Phase) → c.sockets k ≡ some phase → Inv (on_error c)
    unfolding on_error
    on_error-Inv k phase h =
        grind (arith, v.fresh, v.current, v.exclusive, v.delay, v.silent, v.untimed, v.up, v.down)

    on_close-Inv :
        (k : ℕ) (phase : Phase)
        → c.sockets k ≡ some phase
        → Inv (on_close (record c { sockets = update c.sockets k none }))
    unfolding on_close set_status
    on_close-Inv k phase h =
        grind (arith, v.fresh, v.current, v.exclusive, v.delay, v.silent, v.untimed, v.up, v.down)

    disconnect-Inv : Inv (disconnect c)
    unfolding disconnect
    disconnect-Inv = record {
      fresh = λ k h. close_in-none c.socket c.sockets k (v.fresh k h);
      current = λ k phase h.
          let (q, was, closes_it) = close_in-eq_some c.socket c.sockets k phase h in
          v.current k q was;
      exclusive = λ k phase h. refl;
      delay = λ d h. cc;
      silent = λ k phase closed h.
          let (q, was, closes_it) = close_in-eq_some c.socket c.sockets k phase h in
          closes_it (v.current k q was);
      untimed = λ closed. refl;
      up = λ k h.
          let (q, was, closes_it) = close_in-eq_some c.socket c.sockets k established h in
          let never : established ≡ closing = closes_it (v.current k q was) in cc;
      down = λ d h. cc;
    }

  Step-Inv : {c d : Conn Number} → Step c d → Inv c → Inv d
  Step-Inv (fires c d h) v = open_socket-Inv c v d h
  Step-Inv (opens c k h) v = on_open-Inv c v k h
  Step-Inv (receives c k f h) v = on_message-Inv c v f
  Step-Inv (errs c k phase h) v = on_error-Inv c v k phase h
  Step-Inv (closes c k phase h) v = on_close-Inv c v k phase h
  Step-Inv (leaves c) v = disconnect-Inv c v

  -- In every state that the connection can reach, at most one socket is not closed yet, and then
  -- no timer is pending; the pending delay is the backoff of the failures so far; after the
  -- clean-up only closing sockets are left and no timer; and the status shown is `live` while a
  -- socket is open and `disconnected` while the timer is pending.
  pub Reach-Inv : (c : Conn Number) → Reach c → Inv c
  Reach-Inv _ start = connect-Inv
  Reach-Inv d (next {c} r s) = Step-Inv s (Reach-Inv c r)
