-- ===== src/Tests/Clusters.antt =====
-- The store of the Slurm clusters in a cycle, at a cluster that cannot be reached and an agentless host.
use komari_bridge.Base.{◌≡◌, refl, inl, [], ◌∷◌, ◌≢◌}
use komari_bridge.App.Steps.{stored_in, begun, gathering, State, collects}
use komari_bridge.Linux.Provider.{new_linux, new_slurm}
use komari_bridge.Slurm.{Clusters}
use komari_bridge.HttpApi.{one_slurm, cluster, handle}
use komari_bridge.Linux.Cluster.{unavailable}
use komari_bridge.Ssh.Connection.{dial_failed, run}
use komari_bridge.App.{Live, linux, new_linux_state, collect_live, Turn, learned, live_source}
use komari_bridge.App.Order.{collect_live_comm}
use komari_bridge.Slurm.Abstract.{Store}
use mathlib.Core.Quot
use komari_bridge.App.Visible.{Quiet, still, goes_on, handle-unavailable}
use komari_bridge.Bridge.Gather.{gather_provider}
use komari_bridge.Tests.Samples.{Sample, Sample-Float64, env, build, runner}
use komari_bridge.Tests.Sources.{agent}
use komari_bridge.Tests.Whole.{slurm_config, world}

abbrev hpc_live : Live Sample
hpc_live = linux (new_slurm slurm_config) new_linux_state

-- The Slurm cluster's collection, and then the next provider's.
abbrev after_hpc : Clusters
after_hpc = (collect_live world hpc_live []).stored

abbrev next_live : Live Sample
next_live = linux (new_linux agent) new_linux_state

abbrev next_turn : Turn Sample
next_turn = collect_live world next_live after_hpc

abbrev later : State Sample
later =
    gathering next_turn.stored (next_turn.live ∷ []) []
      (gather_provider env.clock (learned next_live next_turn) (begun runner)) runner.reporter

undisturbed :
    Quiet env build [] "hpc"
      (gathering after_hpc [] (next_live ∷ []) (begun runner) runner.reporter)
      later
undisturbed = goes_on still (collects world) refl

handle-unavailable_example : handle "" (stored_in later) "" (one_slurm "hpc") ≡ record {
  status = 200;
  payload = cluster (unavailable "hpc" 5 "SSH collection failed: failed");
}
unfolding run
handle-unavailable_example =
    handle-unavailable env build [] "" "" (inl refl) world (new_slurm slurm_config) new_linux_state
      [] [] (next_live ∷ []) (begun runner) runner.reporter dial_failed refl refl undisturbed

ids_ne : (live_source hpc_live).1 ≢ (live_source next_live).1
unfolding live_source
ids_ne e = cc

collect_live_comm_example :
    Path Store
      (Quot.mk (collect_live world next_live (collect_live world hpc_live []).stored).stored)
      (Quot.mk (collect_live world hpc_live (collect_live world next_live []).stored).stored)
collect_live_comm_example = collect_live_comm world world hpc_live next_live [] ids_ne
