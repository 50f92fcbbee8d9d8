-- ===== src/Ssh/Connection/Recovery.antt =====
-- When a collection gets through again.
use komari_bridge.Base.{ℕ, ◌+◌, ◌≤◌, ◌<◌, ◌≡◌, refl, true, false, String, ok, err, arith}
use komari_bridge.Ssh.Connection.{
  Remote, printed, RunError, Session, close_locked, dial, new_ssh_session, shake_hands, connect,
  command, client_locked, run, run_with_reconnect,
}

-- At this access the network and the host answer over the connection, and the command prints the text.
pub record IsUp (remote : Remote) (text : String) (connection n : ℕ) : Type 0 where
  pub dials : remote.dials n ≡ true
  pub shakes_hands : remote.shakes_hands n ≡ true
  pub opens_session : remote.opens_session connection n ≡ true
  pub outcome : remote.outcome connection n ≡ printed text

-- The client's connection is closed.
abbrev IsReset : Session → Session → Type 0
IsReset before s = (s.connected ≡ false) × (s.opened ≡ before.opened) × (s.ticks ≡ before.ticks)

close_locked-IsReset : (s : Session) → IsReset s (close_locked s)
unfolding close_locked
close_locked-IsReset s = ground arith

module _ (remote : Remote) (text : String) where
  -- From an access on, all answers over any connection that is opened after the given ones.
  abbrev pub IsUpFrom : ℕ → ℕ → Type 0
  IsUpFrom opened t =
      (connection n : ℕ) → opened < connection → t ≤ n → IsUp remote text connection n

  -- Without a client, a run gets the output over a new connection.
  run_succeeds :
      (s : Session)
      → s.connected ≡ false
      → IsUpFrom s.opened s.ticks
      → ((run remote s).0 ≡ ok text)
        × ((run remote s).1.connected ≡ true)
        × ((run remote s).1.opened ≡ s.opened + 1)
  unfolding run client_locked connect dial shake_hands new_ssh_session command
  run_succeeds s apart up =
      let t = s.ticks in
      let c = s.opened + 1 in
      ground (
        arith,
        up c t (omega arith) (omega arith),
        up c (t + 1) (omega arith) (omega arith),
        up c (t + 1 + 1) (omega arith) (omega arith),
        up c (t + 1 + 1 + 1) (omega arith) (omega arith),
      )

  run_with_reconnect_again :
      (s : Session) (e : RunError)
      → (run remote s).0 ≡ err e
      → remote.is_context e ≡ false
      → remote.done (run remote s).1.ticks ≡ false
      → run_with_reconnect remote s ≡ run remote (close_locked (run remote s).1)
  unfolding run_with_reconnect
  run_with_reconnect_again s e failed other alive = rw (failed, other, alive) refl

  -- After a run that failed, for a reason other than the context's end, the collection still returns
  -- the output in the same call, and its client then has a connection that was opened after the failure,
  -- if the network answers from then on and the host does over each connection that is opened then: the
  -- connection that broke, which may stay broken and still answer to the keepalive, is replaced without
  -- waiting for the next cycle.
  pub run_with_reconnect_recovers :
      (s : Session) (e : RunError)
      → (run remote s).0 ≡ err e
      → remote.is_context e ≡ false
      → remote.done (run remote s).1.ticks ≡ false
      → IsUpFrom (run remote s).1.opened (run remote s).1.ticks
      → ((run_with_reconnect remote s).0 ≡ ok text)
        × ((run_with_reconnect remote s).1.connected ≡ true)
        × ((run_with_reconnect remote s).1.opened ≡ (run remote s).1.opened + 1)
  run_with_reconnect_recovers s e failed other alive up =
      let reset = close_locked-IsReset (run remote s).1 in
      rw (run_with_reconnect_again s e failed other alive, ← reset.1)
        (run_succeeds (close_locked (run remote s).1) reset.0 (rw (reset.1, reset.2) up))
