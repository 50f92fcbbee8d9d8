-- ===== src/App/Main.antt =====
-- cmd/komari-bridge/main.go: `main`, by what the process does and the status that it exits with. The
-- context ends by a signal, or when the HTTP server has stopped; `Run` then returns the context's
-- `Canceled`, which is no failure.
use komari_bridge.Base.{
  ℕ, ◌≡◌, refl, String, Bool, true, false, List, [], ◌∷◌, All, Result, ok, err, if◌then◌else◌,
}
use komari_bridge.Base.Floats.{Float64}
use komari_bridge.Buildinfo.{Build}
use komari_bridge.Model.{Snapshot}
use komari_bridge.Bridge.Process.{Env}
use komari_bridge.Bridge.Cycle.{CycleError}
use komari_bridge.Bridge.Cycle.Errors.{HasCollected, cycle_quiet}
use komari_bridge.App.{World}
use komari_bridge.App.Cycle.{Bridge, targets_of_all, collect_each, bridge_cycle}
use komari_bridge.App.Start.{StartError, Setup, start_bridge}

-- The flags.
pub record Flags : Type 0 where
  pub config : String
  pub once : Bool
  pub show_version : Bool

-- What the process does: it writes the version, fails to start, runs one cycle, or serves and runs
-- until its context ends.
pub data Ran (F : Type 0) : Type 0 where
  wrote_version : Ran F
  not_started : StartError → Ran F
  ran_once : List CycleError → Bridge F → Ran F
  served : Bridge F → Ran F

abbrev status_of : List CycleError → ℕ
status_of [] = 0
status_of (e ∷ es) = 1

unfoldable pub exit_status : {F : Type 0} → Ran F → ℕ
exit_status wrote_version = 0
exit_status (not_started e) = 1
exit_status (ran_once errors b) = status_of errors
exit_status (served b) = 0

module _ {F : Type 0} ⦃fl : Float64 F⦄ (env : Env F) (build : Build) where
  module _ (order : List (Snapshot F) → List (Snapshot F)) (world : ℕ → World F) where
    abbrev pub run_started : Flags → Result StartError (Bridge F) → Ran F
    run_started flags (err e) = not_started e
    run_started flags (ok b) =
        let once = bridge_cycle env build (targets_of_all b.providers) order world b in
        if flags.once then ran_once once.0 once.1 else served b

    unfoldable pub main : Setup → Flags → Ran F
    unfolding start_bridge bridge_cycle
    main setup flags =
        if flags.show_version
        then wrote_version
        else run_started flags (start_bridge setup flags.config)

    -- What a run with `-once` that ends with status 0 has done.
    pub record HasRun (setup : Setup) (flags : Flags) : Type 0 where
      pub bridge : Bridge F
      pub started : start_bridge setup flags.config ≡ ok bridge
      pub collected :
          All HasCollected (collect_each world 0 bridge.providers bridge.stored).collected
      pub silent :
          (bridge_cycle env build (targets_of_all bridge.providers) order world bridge).0 ≡ []

    status_none : (errors : List CycleError) → status_of errors ≡ 0 → errors ≡ []
    status_none [] h = refl
    status_none (e ∷ es) h = cc

    once_HasRun :
        (setup : Setup) (flags : Flags) (s : Result StartError (Bridge F))
        → flags.once ≡ true
        → start_bridge setup flags.config ≡ s
        → exit_status (run_started flags s) ≡ 0
        → HasRun setup flags
    unfolding exit_status bridge_cycle
    once_HasRun setup flags (err e) once start h = cc
    once_HasRun setup flags (ok b) once start h =
        let quiet = status_none _ (rw once at h) in
        record {
          bridge = b;
          started = start;
          collected =
              (cycle_quiet env build order (targets_of_all b.providers)
                (collect_each world 0 b.providers b.stored).collected b.runner quiet).0;
          silent = quiet;
        }

    -- If a run with `-once` and without `-version` ends with status 0 then the bridge had started, with
    -- its configuration, its store, its client and its providers, every one of the providers returned
    -- its snapshots, and the cycle had no error: a start or a provider that fails is always seen in the
    -- status.
    pub main-HasRun :
        (setup : Setup) (flags : Flags)
        → flags.show_version ≡ false
        → flags.once ≡ true
        → exit_status (main setup flags) ≡ 0
        → HasRun setup flags
    unfolding main
    main-HasRun setup flags runs once h = once_HasRun setup flags _ once refl (rw runs at h)
