-- ===== src/Ssh/Connection.antt =====
-- The connection of an SSH provider: `clientLocked`, `closeLocked` and `run`, and the
-- `runWithReconnect` of the Windows provider.
pub mod Balance
pub mod Recovery
use komari_bridge.Base.{
  ℕ, ◌+◌, String, Bool, true, false, not, ◌||◌, if◌then◌else◌, Result, ok, err,
}
use komari_bridge.Base.Exec.{Exec, ◌>>=◌, ◌>>◌}

-- What `session.Output` gives, or the context's end if it comes first.
pub data Outcome : Type 0 where
  interrupted : Outcome
  failed : String → Outcome
  printed : String → Outcome

pub data RunError : Type 0 where
  dial_failed handshake_failed session_failed context_done : RunError
  command_failed : String → RunError

-- The network and the remote host, at each access in turn. What goes over a connection also depends
-- on which one it is, by the count of those opened before, so that one can stay broken while a later
-- one works. `is_context` says of an error whether
-- it is, or wraps, one of the context's, and `done` whether the context has ended.
pub record Remote : Type 0 where
  pub dials : ℕ → Bool
  pub shakes_hands : ℕ → Bool
  pub keeps_alive : ℕ → ℕ → Bool
  pub opens_session : ℕ → ℕ → Bool
  pub outcome : ℕ → ℕ → Outcome
  pub is_context : RunError → Bool
  pub done : ℕ → Bool

-- Whether the provider has a client, and how many connections were opened and closed so far.
pub record Session : Type 0 where
  pub connected : Bool
  pub opened : ℕ
  pub closed : ℕ
  pub ticks : ℕ

abbrev pub new_session : Session
new_session = record { connected = false; opened = 0; closed = 0; ticks = 0 }

abbrev pub tick : Session → Session
tick s = record s { ticks = s.ticks + 1 }

unfoldable pub close_locked : Session → Session
close_locked s = if s.connected then record s { connected = false; closed = s.closed + 1 } else s

abbrev pub Call : Type 0 → Type 0
Call A = Exec Session RunError A

module _ (remote : Remote) where
  unfoldable pub dial : Call (Unit {0})
  dial s = (if remote.dials s.ticks then ok tt else err dial_failed, tick s)

  -- A handshake that fails closes its connection.
  unfoldable pub shake_hands : Call (Unit {0})
  shake_hands s =
      let s' = record (tick s) { opened = s.opened + 1 } in
      if remote.shakes_hands s.ticks
      then (ok tt, record s' { connected = true })
      else (err handshake_failed, record s' { closed = s.closed + 1 })

  unfoldable pub connect : Call (Unit {0})
  unfolding dial shake_hands
  connect = do dial; shake_hands

  -- The client that is there, if it answers, or a new one.
  unfoldable pub client_locked : Call (Unit {0})
  unfolding connect close_locked
  client_locked s =
      if s.connected
      then (if remote.keeps_alive s.opened s.ticks
          then (ok tt, tick s)
          else connect (close_locked (tick s)))
      else connect s

  abbrev pub outcome_of : Outcome → Result RunError String
  outcome_of interrupted = err context_done
  outcome_of (failed text) = err (command_failed text)
  outcome_of (printed text) = ok text

  unfoldable pub new_ssh_session : Call (Unit {0})
  new_ssh_session s =
      (if remote.opens_session s.opened s.ticks then ok tt else err session_failed, tick s)

  unfoldable pub command : Call String
  command s = (outcome_of (remote.outcome s.opened s.ticks), tick s)

  unfoldable pub run : Call String
  unfolding client_locked new_ssh_session command
  run = do client_locked; new_ssh_session; command

  abbrev pub or_reconnect : Result RunError String → Call String
  or_reconnect (ok output) s = (ok output, s)
  or_reconnect (err e) s =
      if remote.is_context e || remote.done s.ticks then (err e, s) else run (close_locked s)

  -- A failed run is made once more over a new connection, unless the context has ended.
  unfoldable pub run_with_reconnect : Call String
  unfolding run close_locked
  run_with_reconnect s = let first = run s in or_reconnect first.0 first.1
