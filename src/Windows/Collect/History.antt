-- ===== src/Windows/Collect/History.antt =====
-- The connection of a Windows provider over a collection.
use komari_bridge.Base.{ℕ, ◌≡◌, refl, Option, none, some, String, Result, ok, err, arith}
use komari_bridge.Base.Floats.{Float64}
use komari_bridge.Ssh.Connection.{RunError}
use komari_bridge.Ssh.Connection.Balance.{
  IsBalanced, run_with_reconnect-IsBalanced, close_locked-IsBalanced,
}
use komari_bridge.Windows.Report.{CollectorOutput, ReportError}
use komari_bridge.Windows.Provider.{Provider, State}
use komari_bridge.Windows.Collect.{Host, after_check, after_decode, after_run, collect}

module _ {F : Type 0} ⦃fl : Float64 F⦄ where
  session-after_check :
      (p : Provider) (now : ℕ) (raw : CollectorOutput F) (v : Result ReportError (Unit {0}))
      (st : State F)
      → (after_check p now raw v st).1.session ≡ st.session
  unfolding after_check
  session-after_check p now raw (err e) st = refl
  session-after_check p now raw (ok _) st = ground arith

  session-after_decode :
      (p : Provider) (now : ℕ) (raw : Option (CollectorOutput F)) (st : State F)
      → (after_decode p now raw st).1.session ≡ st.session
  unfolding after_decode
  session-after_decode p now none st = refl
  session-after_decode p now (some raw) st = session-after_check p now raw _ st

  after_run-IsBalanced :
      (host : Host F) (p : Provider) (now : ℕ) (r : Result RunError String) (st : State F)
      → IsBalanced st.session
      → IsBalanced (after_run host p now r st).1.session
  unfolding after_run
  after_run-IsBalanced host p now (err e) st h = close_locked-IsBalanced st.session h
  after_run-IsBalanced host p now (ok output) st h = rw (session-after_decode p now _ st) h

  -- A collection closes every connection that it opens but for the client's, whichever part of it
  -- fails.
  pub collect-IsBalanced :
      (host : Host F) (p : Provider) (now : ℕ) (st : State F)
      → IsBalanced st.session
      → IsBalanced (collect host p now st).1.session
  unfolding collect
  collect-IsBalanced host p now st h =
      after_run-IsBalanced host p now _ _
        ((run_with_reconnect-IsBalanced host.remote).at st.session h)
