-- ===== src/Bridge/Cycle/Run.antt =====
-- internal/bridge/runner.go: `Run`, the loop around `Cycle`, as the steps that it can take.
use komari_bridge.Base.{String, List}
use komari_bridge.Base.Floats.{Float64}
use komari_bridge.Buildinfo.{Build}
use komari_bridge.Model.{Snapshot}
use komari_bridge.Bridge.Gather.{Collected}
use komari_bridge.Bridge.Process.{Env}
use komari_bridge.Bridge.Cycle.{Runner, cycle}
use komari_bridge.Bridge.Process.Requests.{AllSound}
use komari_bridge.Bridge.Process.Constraints.{OnTable}
use komari_bridge.Bridge.Cycle.Sound.{cycle-AllSound, cycle-OnTable}

-- What the providers collect in one cycle, and the order of its range over the merged snapshots.
pub record Round (F : Type 0) : Type 0 where
  pub order : List (Snapshot F) → List (Snapshot F)
  pub collected : List (Collected F)

-- The loop waits for the ticker or the context, or has returned.
pub data Loop (F : Type 0) : Type 0 where
  waiting : Runner F → Loop F
  returned : Runner F → Loop F

abbrev pub runner_of : {F : Type 0} → Loop F → Runner F
runner_of (waiting r) = r
runner_of (returned r) = r

module _ {F : Type 0} ⦃fl : Float64 F⦄ (env : Env F) (build : Build)
    (authorities : List String) where
  -- A cycle, whose errors are only logged.
  abbrev pub after : Round F → Runner F → Runner F
  after round r = (cycle env build round.order authorities round.collected r).1

  -- The states that `Run` can reach from a runner. Where the context is done and the ticker has
  -- fired, either case of the `select` may be taken.
  pub data Runs (start : Runner F) : Loop F → Type 0 where
    begins : (round : Round F) → Runs start (waiting (after round start))
    ticks :
        (round : Round F) {r : Runner F}
        → Runs start (waiting r)
        → Runs start (waiting (after round r))
    is_done : {r : Runner F} → Runs start (waiting r) → Runs start (returned r)

  -- However long the bridge runs, whatever the providers collect and the server and the database
  -- answer in each cycle: if the table of the start keeps its constraints and the reports sent before
  -- passed the checks, then the table keeps one row for each identity and no Komari UUID twice, and
  -- every report that was sent has totals, percentages, counters, mounts and GPUs within bounds.
  pub run-OnTable :
      (start : Runner F) (l : Loop F)
      → Runs start l
      → OnTable env start.reporter
      → AllSound env start.reporter
      → OnTable env (runner_of l).reporter × AllSound env (runner_of l).reporter
  run-OnTable start _ (begins round) table sound = (
    cycle-OnTable env build round.order authorities round.collected start table,
    cycle-AllSound env build round.order authorities round.collected start sound,
  )
  run-OnTable start _ (ticks round {r = r} runs) table sound =
      let before = run-OnTable start (waiting r) runs table sound in
      (
        cycle-OnTable env build round.order authorities round.collected r before.0,
        cycle-AllSound env build round.order authorities round.collected r before.1,
      )
  run-OnTable start _ (is_done {r = r} runs) table sound =
      run-OnTable start (waiting r) runs table sound
