-- ===== src/App/Cycle.antt =====
-- internal/bridge/runner.go: a whole `Cycle` with the collections of its providers, as one function.
use komari_bridge.Base.{ℕ, ◌+◌, String, List, [], ◌∷◌, map}
use komari_bridge.Base.Floats.{Float64}
use komari_bridge.Buildinfo.{Build}
use komari_bridge.Model.{Snapshot}
use komari_bridge.Slurm.{Clusters}
use komari_bridge.Bridge.Gather.{Collected}
use komari_bridge.Bridge.Process.{Env}
use komari_bridge.Bridge.Cycle.{CycleError, Runner, cycle, authoritative_targets}
use komari_bridge.App.{Live, World, live_targets, collect_live, learned}

-- The bridge between two cycles.
pub record Bridge (F : Type 0) : Type 0 where
  pub stored : Clusters
  pub providers : List (Live F)
  pub runner : Runner F

pub record Round (F : Type 0) : Type 0 where
  pub collected : List (Collected F)
  pub providers : List (Live F)
  pub stored : Clusters

module _ {F : Type 0} ⦃fl : Float64 F⦄ where
  -- `NewRunner`'s authoritative targets, of the providers that it is given.
  unfoldable pub targets_of_all : List (Live F) → List String
  unfolding authoritative_targets live_targets
  targets_of_all ps = authoritative_targets (map (λ (p : Live F). live_targets p) ps)

  -- The collections of a cycle in order, each with what the world answers at its place.
  unfoldable pub collect_each : (ℕ → World F) → ℕ → List (Live F) → Clusters → Round F
  unfolding collect_live
  collect_each world n [] stored = record { collected = []; providers = []; stored = stored }
  collect_each world n (p ∷ ps) stored =
      let first = collect_live (world n) p stored in
      let rest = collect_each world (n + 1) ps first.stored in
      record {
        collected = learned p first ∷ rest.collected;
        providers = first.live ∷ rest.providers;
        stored = rest.stored;
      }

  module _ (env : Env F) (build : Build) (authorities : List String) where
    unfoldable pub bridge_cycle :
        (List (Snapshot F) → List (Snapshot F))
        → (ℕ → World F)
        → Bridge F
        → List CycleError × Bridge F
    unfolding collect_each cycle
    bridge_cycle order world b =
        let round = collect_each world 0 b.providers b.stored in
        let done = cycle env build order authorities round.collected b.runner in
        (done.0, record { stored = round.stored; providers = round.providers; runner = done.1 })
