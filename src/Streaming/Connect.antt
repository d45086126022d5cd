-- ===== src/Streaming/Connect.antt =====
-- frontend/src/domains/streaming/infrastructure/httpStreamingGateway.ts, `connect`: the live socket
-- that reopens itself with capped exponential backoff, feeding the screen's state. The variables of
-- the closure and what the browser keeps for it (sockets and the timer) are one record.
mod Steps
mod Invariant
mod Laws
mod Backoff
mod Tests
use openscale.Base.{
  ℕ, ◌+◌, ◌*◌, ◌^◌, min, Bool, true, false, Option, none, some, if◌then◌else◌, ◌==◌,
}
use openscale.Streaming.Frames.{
  ApiFrame, StreamFrame, ConnectionStatus, connecting, live, disconnected, translate,
}
use openscale.Streaming.Feed.{Feed, initial_feed, on_frame, set_status}

abbrev pub reconnect_base_delay_ms : ℕ
reconnect_base_delay_ms = 1000

abbrev pub reconnect_max_delay_ms : ℕ
reconnect_max_delay_ms = 15000

-- `Math.min(RECONNECT_BASE_DELAY_MS * 2 ** attempt, RECONNECT_MAX_DELAY_MS)`
unfoldable pub backoff : ℕ → ℕ
backoff attempt = min (reconnect_base_delay_ms * 2 ^ attempt) reconnect_max_delay_ms

-- The `readyState` of a socket whose close event has not come yet.
pub data Phase : Type 0 where
  opening established closing : Phase

-- `sockets k` is `none` for a socket that is not made yet or has reported its close; `opened`
-- counts the sockets made; `timer` is the delay of the pending timeout.
pub record Conn (Number : Type 0) : Type 0 where
  pub socket : Option ℕ
  pub closed : Bool
  pub attempt : ℕ
  pub timer : Option ℕ
  pub sockets : ℕ → Option Phase
  pub opened : ℕ
  pub feed : Feed Number

abbrev pub update : (ℕ → Option Phase) → ℕ → Option Phase → ℕ → Option Phase
update sockets k phase i = if i == k then phase else sockets i

-- `socket?.close()`: the browser puts a socket that is not closed yet into the closing phase.
abbrev pub close_phase : Option Phase → Option Phase
close_phase none = none
close_phase (some phase) = some closing

abbrev pub close_in : Option ℕ → (ℕ → Option Phase) → ℕ → Option Phase
close_in none sockets = sockets
close_in (some k) sockets = update sockets k (close_phase (sockets k))

module _ {Number : Type 0} where
  abbrev pub on_status_change : Conn Number → ConnectionStatus → Conn Number
  on_status_change c s = record c { feed = set_status c.feed s }

  -- The function `open`: a new socket, in the variable `socket`.
  unfoldable pub open_socket : Conn Number → Conn Number
  open_socket c = if c.closed then c else record c {
    socket = some c.opened;
    sockets = update c.sockets c.opened (some opening);
    opened = c.opened + 1;
    feed = set_status c.feed connecting;
  }

  -- `socket.onopen`
  unfoldable pub on_open : Conn Number → Conn Number
  on_open c = record c { attempt = 0; feed = set_status c.feed live }

  -- `onFrame` of a translated frame; a frame that is malformed or of another type is skipped.
  abbrev pub deliver : Feed Number → Option (StreamFrame Number) → Feed Number
  deliver feed none = feed
  deliver feed (some frame) = on_frame feed frame

  -- `socket.onmessage`
  unfoldable pub on_message : Conn Number → ApiFrame Number → Conn Number
  on_message c f = record c { feed = deliver c.feed (translate f) }

  unfoldable pub schedule_reconnect : Conn Number → Conn Number
  schedule_reconnect c =
      if c.closed then c else record c { attempt = c.attempt + 1; timer = some (backoff c.attempt) }

  -- `socket.onclose`
  unfoldable pub on_close : Conn Number → Conn Number
  unfolding schedule_reconnect
  on_close c =
      if c.closed
      then c
      else schedule_reconnect (record c { feed = set_status c.feed disconnected })

  -- `socket.onerror`
  unfoldable pub on_error : Conn Number → Conn Number
  on_error c = record c { sockets = close_in c.socket c.sockets }

  -- The function that `connect` returns. `clearTimeout` of a timer that has fired does nothing.
  unfoldable pub disconnect : Conn Number → Conn Number
  disconnect c = record c { closed = true; timer = none; sockets = close_in c.socket c.sockets }

  -- The call of `connect` up to its return.
  unfoldable pub connect : Conn Number
  unfolding open_socket
  connect = open_socket (record {
    socket = none;
    closed = false;
    attempt = 0;
    timer = none;
    sockets = λ k. none;
    opened = 0;
    feed = initial_feed;
  })
