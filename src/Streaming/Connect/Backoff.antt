-- ===== src/Streaming/Connect/Backoff.antt =====
-- The delays between attempts to reconnect.
use openscale.Base.{ℕ, zero, suc, ◌*◌, ◌^◌, ◌≤◌, min, false, none, some, ◌≡◌, refl, arith}
use native.Mathlib.Nat.{pow-suc}
use openscale.Streaming.Connect.{
  Conn, opening, update, backoff, open_socket, on_close, connect, reconnect_base_delay_ms,
  reconnect_max_delay_ms,
}
use openscale.Streaming.Connect.Steps.{fires, closes, Reach, start, next}

pow_pos : (n : ℕ) → 1 ≤ 2 ^ n
pow_pos zero = omega arith
pow_pos (suc n) = rw pow-suc (omega (arith, pow_pos n))

-- Every delay lies between the base delay and the cap.
backoff_bounds :
    (n : ℕ) → (reconnect_base_delay_ms ≤ backoff n) × (backoff n ≤ reconnect_max_delay_ms)
unfolding backoff
backoff_bounds n = omega (arith, pow_pos n)

-- The delay starts at one second and doubles with each further failure until it meets the cap,
-- fifteen seconds, where it stays; it lies between the two throughout.
backoff-suc :
    (n : ℕ)
    → (backoff 0 ≡ 1000)
      × (backoff (suc n) ≡ min (2 * backoff n) 15000)
      × (1000 ≤ backoff n)
      × (backoff n ≤ 15000)
unfolding backoff
backoff-suc n = (refl, rw pow-suc (omega arith), omega (arith, pow_pos n), omega arith)

module _ {Number : Type 0} where
  -- The `k`-th socket reports its close.
  abbrev lose : ℕ → Conn Number → Conn Number
  lose k c = on_close (record c { sockets = update c.sockets k none })

  -- The state after the first `n + 1` attempts have each closed without an open.
  unfoldable pub failing : ℕ → Conn Number
  failing zero = lose 0 connect
  failing (suc n) = lose (suc n) (open_socket (record (failing n) { timer = none }))

  -- Where the connection stands after those attempts.
  record IsFailing (n : ℕ) (c : Conn Number) : Type 0 where
    reached : Reach c
    pending : c.timer ≡ some (backoff n)
    attempts : c.attempt ≡ suc n
    made : c.opened ≡ suc n
    open_still : c.closed ≡ false

  lose-IsFailing :
      (n : ℕ) (c : Conn Number)
      → IsFailing n c
      → IsFailing (suc n) (lose (suc n) (open_socket (record c { timer = none })))
  unfolding open_socket on_close
  lose-IsFailing n c f = record {
    reached =
        next (next f.reached (fires c (backoff n) f.pending))
          (closes _ (suc n) opening (ground arith));
    pending = ground arith;
    attempts = ground arith;
    made = ground arith;
    open_still = ground arith;
  }

  lose-connect : IsFailing 0 (lose 0 connect)
  unfolding connect on_close
  lose-connect = record {
    reached = next start (closes connect 0 opening refl);
    pending = refl;
    attempts = refl;
    made = refl;
    open_still = refl;
  }

  failing-IsFailing : (n : ℕ) → IsFailing n (failing n)
  unfolding failing
  failing-IsFailing zero = lose-connect
  failing-IsFailing (suc n) = lose-IsFailing n (failing n) (failing-IsFailing n)

  -- When the first `n + 1` attempts in a row have closed without an open, the connection waits
  -- for the delay of `n` failures before the next attempt; this state can be reached for every `n`.
  failing-timer : (n : ℕ) → Reach (failing n) × ((failing n).timer ≡ some (backoff n))
  failing-timer n = let f = failing-IsFailing n in (f.reached, f.pending)
