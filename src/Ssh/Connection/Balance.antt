-- ===== src/Ssh/Connection/Balance.antt =====
-- How many connections an SSH provider holds open.
use komari_bridge.Base.{◌+◌, ◌≡◌, false, if◌then◌else◌, String, Result, ok, err, arith}
use komari_bridge.Base.Exec.{Keeps, keeps_rules}
use komari_bridge.Ssh.Connection.{
  Remote, RunError, Session, tick, close_locked, dial, new_ssh_session, shake_hands, connect,
  client_locked, command, run, run_with_reconnect, or_reconnect,
}

-- Every connection that was opened was closed again, but for the client's.
abbrev pub IsBalanced : Session → Type 0
IsBalanced s = s.opened ≡ s.closed + (if s.connected then 1 else 0)

pub close_locked-IsBalanced : (s : Session) → IsBalanced s → IsBalanced (close_locked s)
unfolding close_locked
close_locked-IsBalanced s h = ground arith

-- No new client replaces one that is not closed.
abbrev IsFree : Session → Type 0
IsFree s = (s.connected ≡ false) × (s.opened ≡ s.closed)

module _ (remote : Remote) where
  connect-IsBalanced : (s : Session) → IsFree s → IsBalanced (connect remote s).1
  unfolding connect dial shake_hands
  connect-IsBalanced s h = ground arith

  client_locked-IsBalanced : Keeps IsBalanced (client_locked remote)
  unfolding client_locked close_locked
  client_locked-IsBalanced = record {
    at = λ s h. ground (arith, connect-IsBalanced s, connect-IsBalanced (close_locked (tick s)));
  }

  new_ssh_session-IsBalanced : Keeps IsBalanced (new_ssh_session remote)
  unfolding new_ssh_session
  new_ssh_session-IsBalanced = record { at = λ s h. h }

  command-IsBalanced : Keeps IsBalanced (command remote)
  unfolding command
  command-IsBalanced = record { at = λ s h. h }

  pub run-IsBalanced : Keeps IsBalanced (run remote)
  unfolding run
  run-IsBalanced =
      search (keeps_rules, client_locked-IsBalanced, new_ssh_session-IsBalanced, command-IsBalanced)

  or_reconnect-IsBalanced :
      (first : Result RunError String) → Keeps IsBalanced (or_reconnect remote first)
  or_reconnect-IsBalanced (ok output) = record { at = λ s h. h }
  or_reconnect-IsBalanced (err e) = record {
    at = λ s h. ground (arith, (run-IsBalanced).at (close_locked s) (close_locked-IsBalanced s h));
  }

  pub run_with_reconnect-IsBalanced : Keeps IsBalanced (run_with_reconnect remote)
  unfolding run_with_reconnect
  run_with_reconnect-IsBalanced = record {
    at = λ s h.
        (or_reconnect-IsBalanced (run remote s).0).at (run remote s).1 (run-IsBalanced.at s h);
  }
