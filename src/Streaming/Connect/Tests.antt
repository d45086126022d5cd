-- ===== src/Streaming/Connect/Tests.antt =====
-- Short lives of a connection, with numbers for the host's number type.
use openscale.Base.{ℕ, true, none, some, ◌≡◌, refl}
use openscale.Streaming.Connect.{
  Conn, established, closing, backoff, on_open, on_close, disconnect, connect, update,
}
use openscale.Streaming.Connect.Steps.{opens, closes, leaves, Reach, start, next}
use openscale.Streaming.Connect.Invariant.{Inv, Reach-Inv}
use openscale.Streaming.Connect.Laws.{IsAwaited, Reach-IsAwaited, now, then, Later-silent}

abbrev begun : Conn ℕ
begun = connect

-- Open the first socket, then lose it.
abbrev up : Conn ℕ
up = on_open (record begun { sockets = update begun.sockets 0 (some established) })

up-Reach : Reach up
unfolding connect
up-Reach = next start (opens begun 0 refl)

abbrev lost : Conn ℕ
lost = on_close (record up { sockets = update up.sockets 0 none })

lost-Reach : Reach lost
unfolding connect on_open
lost-Reach = next up-Reach (closes up 0 established refl)

Reach-Inv_example : Inv lost
unfolding connect on_open
Reach-Inv_example = Reach-Inv lost lost-Reach

Reach-IsAwaited_example : IsAwaited lost
unfolding connect on_open on_close
Reach-IsAwaited_example = Reach-IsAwaited lost lost-Reach refl

abbrev left : Conn ℕ
left = disconnect up

Later-silent_example :
    ((on_close (record left { sockets = update left.sockets 0 none })).feed ≡ left.feed)
    × ((on_close (record left { sockets = update left.sockets 0 none })).closed ≡ true)
unfolding connect on_open disconnect
Later-silent_example =
    Later-silent (next up-Reach (leaves up)) refl (then now (closes left 0 closing refl))

capped : backoff 4 ≡ 15000
unfolding backoff
capped = refl
