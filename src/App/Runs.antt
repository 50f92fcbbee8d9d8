-- ===== src/App/Runs.antt =====
-- Whole cycles as runs of small steps, and back.
use komari_bridge.Base.{ℕ, ◌↔◌, String, List, [], ◌∷◌}
use komari_bridge.Base.Dict.{Dict}
use komari_bridge.Base.Floats.{Float64}
use komari_bridge.Buildinfo.{Build}
use komari_bridge.Model.{Snapshot}
use komari_bridge.Slurm.{Clusters}
use komari_bridge.Bridge.Gather.{Collected, Cached, gather}
use komari_bridge.Bridge.Process.{Env, Reporter}
use komari_bridge.Bridge.Cycle.{Runner, submit_all, gathered, cycle}
use komari_bridge.App.{Live, World, collect_live, learned}
use komari_bridge.App.Cycle.{Bridge, bridge_cycle}
use komari_bridge.App.Steps.{
  State, waiting, gathering, submitting, begun, begins, collects, merges, submits, ends, Steps,
  none_yet, then,
}
use komari_bridge.App.Refines.{
  Collects, at_start, one_more, gather-append, collect_each-Collects, Cycles, no_cycle, one_cycle,
  Steps-Cycles,
}

module _ {F : Type 0} ⦃fl : Float64 F⦄ (env : Env F) (build : Build)
    (authorities : List String) where
  run-Collects :
      {s : State F} {r : Runner F} {start : List (Live F)} {first : Clusters}
      {ps todo : List (Live F)} {c : Clusters} {seen : List (Collected F)}
      → Collects start first ps todo c seen
      → Steps env build authorities s (waiting first start r)
      → Steps env build authorities s
          (gathering c ps todo (gather env.clock seen (begun r)) r.reporter)
  unfolding gather
  run-Collects at_start h = then h begins
  run-Collects {r = r} (one_more w {p = p} {c = c} {seen = seen} before) h =
      rw (gather-append env.clock seen (learned p (collect_live w p c)) (begun r))
        (then (run-Collects before h) (collects w))

  run_submits :
      {s : State F} {c : Clusters} {ps : List (Live F)} {cache : Dict (Cached F)}
      (todo : List (Snapshot F)) {r : Reporter F}
      → Steps env build authorities s (submitting c ps cache todo r)
      → Steps env build authorities s (submitting c ps cache [] (submit_all env build todo r).1)
  unfolding submit_all
  run_submits [] h = h
  run_submits (x ∷ todo) h = run_submits todo (then h submits)

  Cycles-Steps :
      {c₀ : Clusters} {ps₀ : List (Live F)} {r₀ : Runner F} {c : Clusters} {ps : List (Live F)}
      {r : Runner F}
      → Cycles env build authorities c₀ ps₀ r₀ c ps r
      → Steps env build authorities (waiting c₀ ps₀ r₀) (waiting c ps r)
  unfolding cycle gathered
  Cycles-Steps no_cycle = none_yet
  Cycles-Steps (one_cycle order before collected) =
      then (run_submits _ (then (run-Collects collected (Cycles-Steps before)) (merges order))) ends

  -- The bridge is between two cycles with some clusters, providers and runner after steps of `Run` if
  -- and only if it is so after whole cycles, in each of which every provider collects once, in order,
  -- and `cycle` is applied to what they collected: the steps, between which the API may be asked,
  -- lose and add nothing.
  pub Steps-Cycles_iff :
      (c₀ c : Clusters) (ps₀ ps : List (Live F)) (r₀ r : Runner F)
      → Steps env build authorities (waiting c₀ ps₀ r₀) (waiting c ps r)
        ↔ Cycles env build authorities c₀ ps₀ r₀ c ps r
  Steps-Cycles_iff c₀ c ps₀ ps r₀ r =
      (Steps-Cycles env build authorities c₀ ps₀ r₀ c ps r, Cycles-Steps)

  -- Whatever the world answers in a cycle, it can be run to its end, where the bridge waits with the
  -- clusters, the providers and the runner of the cycle as a function.
  pub Steps-bridge_cycle :
      (order : List (Snapshot F) → List (Snapshot F)) (world : ℕ → World F) (b : Bridge F)
      → let after = (bridge_cycle env build authorities order world b).1 in
        Steps env build authorities
          (waiting b.stored b.providers b.runner)
          (waiting after.stored after.providers after.runner)
  unfolding bridge_cycle
  Steps-bridge_cycle order world b =
      Cycles-Steps (one_cycle order no_cycle (collect_each-Collects world 0 b.providers at_start))
