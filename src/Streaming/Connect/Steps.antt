-- ===== src/Streaming/Connect/Steps.antt =====
-- What the browser may do to the connection at any moment. Sockets report an open or a message
-- only in the right phase, and a close once; a timer fires only while it is pending.
use openscale.Base.{ℕ, none, some, ◌≡◌}
use openscale.Streaming.Frames.{ApiFrame}
use openscale.Streaming.Connect.{
  Conn, Phase, opening, established, update, open_socket, on_open, on_message, on_close, on_error,
  disconnect, connect,
}

module _ {Number : Type 0} where
  pub data Step : Conn Number → Conn Number → Type 0 where
    fires :
        (c : Conn Number) (d : ℕ)
        → c.timer ≡ some d
        → Step c (open_socket (record c { timer = none }))
    opens :
        (c : Conn Number) (k : ℕ)
        → c.sockets k ≡ some opening
        → Step c (on_open (record c { sockets = update c.sockets k (some established) }))
    receives :
        (c : Conn Number) (k : ℕ) (f : ApiFrame Number)
        → c.sockets k ≡ some established
        → Step c (on_message c f)
    errs :
        (c : Conn Number) (k : ℕ) (phase : Phase) → c.sockets k ≡ some phase → Step c (on_error c)
    closes :
        (c : Conn Number) (k : ℕ) (phase : Phase)
        → c.sockets k ≡ some phase
        → Step c (on_close (record c { sockets = update c.sockets k none }))
    leaves : (c : Conn Number) → Step c (disconnect c)

  pub data Reach : Conn Number → Type 0 where
    start : Reach connect
    next : {c d : Conn Number} → Reach c → Step c d → Reach d
