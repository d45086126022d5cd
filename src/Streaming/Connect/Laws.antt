-- ===== src/Streaming/Connect/Laws.antt =====
-- The connection never gives up while the screen is shown, and never calls back after it is left.
use openscale.Base.{
  ℕ, true, false, Option, none, some, ◌≡◌, inl, inr, refl, ◌∙◌, arith, ◌==◌, Bool-cases,
}
use openscale.Streaming.Connect.{
  Conn, Phase, opening, established, closing, backoff, open_socket, on_open, on_message, on_close,
  on_error, disconnect, connect, close_in,
}
use openscale.Streaming.Connect.Steps.{
  Step, fires, opens, receives, errs, closes, leaves, Reach, start, next,
}
use openscale.Streaming.Connect.Invariant.{Inv, Reach-Inv}

close_in-some :
    (o : Option ℕ) (sockets : ℕ → Option Phase) (k : ℕ) (phase : Phase)
    → sockets k ≡ some phase
    → (q : Phase) × (close_in o sockets k ≡ some q)
close_in-some none sockets k phase h = (phase, h)
close_in-some (some j) sockets k phase h = elim (Bool-cases (k == j)) [
  | inl same ↦ (closing, ground arith)
  | inr other ↦ (phase, ground arith)
]

module _ {Number : Type 0} where
  -- The connection waits for something: a socket that has not closed, or the reconnect timer.
  pub data IsAwaited (c : Conn Number) : Type 0 where
    by_socket : (k : ℕ) (phase : Phase) → c.sockets k ≡ some phase → IsAwaited c
    by_timer : (d : ℕ) → c.timer ≡ some d → IsAwaited c

  connect-IsAwaited : IsAwaited connect
  unfolding connect
  connect-IsAwaited = by_socket 0 opening refl

  open_socket-IsAwaited : (c : Conn Number) → c.closed ≡ false → IsAwaited (open_socket c)
  unfolding open_socket
  open_socket-IsAwaited c h = rw h (by_socket c.opened opening (ground arith))

  on_close-IsAwaited : (c : Conn Number) → c.closed ≡ false → IsAwaited (on_close c)
  unfolding on_close
  on_close-IsAwaited c h = rw h (by_timer (backoff c.attempt) refl)

  -- The clean-up has run: it is the only step that sets `closed`.
  closed_of_Step : {c d : Conn Number} → Step c d → d.closed ≡ false → c.closed ≡ false
  closed_of_Step (fires c d h) e = unfold open_socket in ground arith
  closed_of_Step (opens c k h) e = unfold on_open in e
  closed_of_Step (receives c k f h) e = unfold on_message in e
  closed_of_Step (errs c k phase h) e = unfold on_error in e
  closed_of_Step (closes c k phase h) e = unfold on_close in ground arith
  closed_of_Step (leaves c) e = unfold disconnect in cc

  on_error-IsAwaited :
      (c : Conn Number) (k : ℕ) (phase : Phase) → c.sockets k ≡ some phase → IsAwaited (on_error c)
  unfolding on_error
  on_error-IsAwaited c k phase h =
      let (q, still) = close_in-some c.socket c.sockets k phase h in by_socket k q still

  Step-IsAwaited : {c d : Conn Number} → Step c d → d.closed ≡ false → IsAwaited c → IsAwaited d
  unfolding on_open on_message disconnect
  Step-IsAwaited (fires c d h) e w = open_socket-IsAwaited _ (closed_of_Step (fires c d h) e)
  Step-IsAwaited (opens c k h) e w = by_socket k established (ground arith)
  Step-IsAwaited (receives c k f h) e w = by_socket k established h
  Step-IsAwaited (errs c k phase h) e w = on_error-IsAwaited c k phase h
  Step-IsAwaited (closes c k phase h) e w =
      on_close-IsAwaited _ (closed_of_Step (closes c k phase h) e)
  Step-IsAwaited (leaves c) e w = cc

  -- Until the screen is left, the connection never comes to rest: in every state that it can
  -- reach, a socket is not closed yet or the reconnect timer is pending.
  pub Reach-IsAwaited : (c : Conn Number) → Reach c → c.closed ≡ false → IsAwaited c
  Reach-IsAwaited _ start e = connect-IsAwaited
  Reach-IsAwaited d (next {c} r s) e = Step-IsAwaited s e (Reach-IsAwaited c r (closed_of_Step s e))

  -- Any number of steps from a state.
  pub data Later (c : Conn Number) : Conn Number → Type 0 where
    now : Later c c
    then : {d e : Conn Number} → Later c d → Step d e → Later c e

  Step-silent :
      {c d : Conn Number}
      → Step c d
      → Inv c
      → c.closed ≡ true
      → (d.feed ≡ c.feed) × (d.closed ≡ true)
  unfolding on_error on_close disconnect
  Step-silent (fires c d h) v e = cc (v.untimed e)
  Step-silent (opens c k h) v e = cc (v.silent k opening e h)
  Step-silent (receives c k f h) v e = cc (v.silent k established e h)
  Step-silent (errs c k phase h) v e = (refl, e)
  Step-silent (closes c k phase h) v e = (ground arith, ground arith)
  Step-silent (leaves c) v e = (refl, refl)

  Reach-Later : {c d : Conn Number} → Reach c → Later c d → Reach d
  Reach-Later r now = r
  Reach-Later r (then l s) = next (Reach-Later r l) s

  -- After the clean-up nothing reaches the screen: whatever the browser still reports, the feed
  -- and the status stay as they were, and the connection stays closed.
  pub Later-silent :
      {c d : Conn Number}
      → Reach c
      → c.closed ≡ true
      → Later c d
      → (d.feed ≡ c.feed) × (d.closed ≡ true)
  Later-silent r e now = (refl, e)
  Later-silent r e (then {d} l s) =
      let (same, closed) = Later-silent r e l in
      let (still, closed') = Step-silent s (Reach-Inv d (Reach-Later r l)) closed in
      (still ∙ same, closed')
