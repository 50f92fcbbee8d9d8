-- ===== src/Linux/Collect/History.antt =====
-- The connection of a Linux provider over its collections.
use komari_bridge.Base.{
  ℕ, ◌≡◌, refl, Option, none, some, List, [], ◌∷◌, String, Result, ok, err, arith,
}
use komari_bridge.Base.Floats.{Float64}
use komari_bridge.Slurm.{ClusterSnapshot}
use komari_bridge.Ssh.Connection.{RunError, close_locked}
use komari_bridge.Ssh.Connection.Balance.{IsBalanced, run-IsBalanced, close_locked-IsBalanced}
use komari_bridge.Linux.Report.{RemoteReport, ReportError}
use komari_bridge.Linux.Provider.{Provider, State}
use komari_bridge.Linux.Collect.{
  Host, store_cluster, mark_slurm_unavailable, after_check, after_decode, after_run, collect,
}

session-store_cluster :
    (p : Provider) (c : ClusterSnapshot) (st : State) → (store_cluster p c st).session ≡ st.session
unfolding store_cluster
session-store_cluster p c st = ground arith

session-mark :
    (p : Provider) (now : ℕ) (message : String) (st : State)
    → (mark_slurm_unavailable p now message st).session ≡ st.session
unfolding mark_slurm_unavailable
session-mark p now message st = session-store_cluster p _ st

module _ {F : Type 0} ⦃fl : Float64 F⦄ where
  session-after_check :
      (p : Provider) (now : ℕ) (raw : RemoteReport F) (v : Result ReportError (Unit {0}))
      (st : State)
      → (after_check p now raw v st).1.session ≡ st.session
  unfolding after_check
  session-after_check p now raw (err e) st = refl
  session-after_check p now raw (ok _) st = session-store_cluster p _ _

  session-after_decode :
      (p : Provider) (now : ℕ) (raw : Option (RemoteReport F)) (st : State)
      → (after_decode p now raw st).1.session ≡ st.session
  unfolding after_decode
  session-after_decode p now none st = session-mark p now _ st
  session-after_decode p now (some raw) st = session-after_check p now raw _ st

  -- A run that failed leaves no client behind.
  session-after_run :
      (host : Host F) (p : Provider) (now : ℕ) (r : Result RunError String) (st : State)
      → (after_run host p now r st).1.session
        ≡ elim r [ err e ↦ close_locked st.session | ok output ↦ st.session ]
  unfolding after_run
  session-after_run host p now (err e) st = session-mark p now _ _
  session-after_run host p now (ok output) st = session-after_decode p now _ st

  after_run-IsBalanced :
      (host : Host F) (p : Provider) (now : ℕ) (r : Result RunError String) (st : State)
      → IsBalanced st.session
      → IsBalanced (after_run host p now r st).1.session
  after_run-IsBalanced host p now (err e) st h =
      rw (session-after_run host p now (err e) st) (close_locked-IsBalanced st.session h)
  after_run-IsBalanced host p now (ok output) st h =
      rw (session-after_run host p now (ok output) st) h

  pub collect-IsBalanced :
      (host : Host F) (p : Provider) (now : ℕ) (st : State)
      → IsBalanced st.session
      → IsBalanced (collect host p now st).1.session
  unfolding collect
  collect-IsBalanced host p now st h =
      after_run-IsBalanced host p now _ _ ((run-IsBalanced host.remote).at st.session h)

  -- A history of collections, each with what the network and the host answer in it.
  pub collect_all : Provider → List (Host F × ℕ) → State → State
  collect_all p [] st = st
  collect_all p ((host, now) ∷ cycles) st = collect_all p cycles (collect host p now st).1

  -- Over any history of collections, however the network and the host answer, a provider holds at
  -- most one connection open: each one that it opened it has closed, but for its client's.
  pub collect_all-IsBalanced :
      (p : Provider) (cycles : List (Host F × ℕ)) (st : State)
      → IsBalanced st.session
      → IsBalanced (collect_all p cycles st).session
  unfolding collect_all
  collect_all-IsBalanced p [] st h = h
  collect_all-IsBalanced p ((host, now) ∷ cycles) st h =
      collect_all-IsBalanced p cycles (collect host p now st).1 (collect-IsBalanced host p now st h)
