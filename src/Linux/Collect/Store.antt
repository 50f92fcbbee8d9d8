-- ===== src/Linux/Collect/Store.antt =====
-- What the HTTP API shows of a cluster after a collection.
use komari_bridge.Base.{ℕ, ◌≡◌, refl, ◌⊎◌, eq_refl, true, false, String, ◌<>◌, err, arith}
use komari_bridge.Base.Floats.{Float64}
use komari_bridge.Slurm.{ClusterSnapshot}
use komari_bridge.HttpApi.{one_slurm, cluster, handle, provided_key}
use komari_bridge.HttpApi.Access.{handle-set}
use komari_bridge.Ssh.Connection.{RunError, close_locked, run}
use komari_bridge.Linux.Cluster.{unavailable}
use komari_bridge.Linux.Provider.{Provider, State, keeps_cluster}
use komari_bridge.Linux.Collect.{Host, store_cluster, mark_slurm_unavailable, after_run, collect}

-- A request that the API lets pass is answered with the cluster.
module _ (api_key header : String) (may : (api_key ≡ "") ⊎ (provided_key header ≡ api_key)) where
  handle-store_cluster :
      (p : Provider) (c : ClusterSnapshot) (st : State)
      → keeps_cluster p ≡ true
      → handle api_key (store_cluster p c st).clusters header (one_slurm p.cfg.id)
        ≡ record { status = 200; payload = cluster c }
  unfolding store_cluster
  handle-store_cluster p c st keeps =
      rw keeps
        (rw (handle-set api_key header p.cfg.id p.cfg.id c st.clusters may, eq_refl p.cfg.id) refl)

  -- After a collection whose run failed, the API answers a request that it lets pass with the cluster
  -- as unavailable, with the time and the error of that collection, and not with what was known
  -- before; the provider has no client left, so the next collection dials anew.
  pub collect_failed :
      {F : Type 0} ⦃fl : Float64 F⦄ (host : Host F) (p : Provider) (now : ℕ) (st : State)
      (e : RunError)
      → keeps_cluster p ≡ true
      → (run host.remote st.session).0 ≡ err e
      → (handle api_key (collect host p now st).1.clusters header (one_slurm p.cfg.id) ≡ record {
        status = 200;
        payload =
            cluster (unavailable p.cfg.id now ("SSH collection failed: " <> host.error_text e));
      })
        × ((collect host p now st).1.session.connected ≡ false)
  unfolding collect after_run mark_slurm_unavailable store_cluster close_locked
  collect_failed host p now st e keeps failed = rw failed (
    handle-store_cluster p
        (unavailable p.cfg.id now ("SSH collection failed: " <> host.error_text e)) _ keeps,
    ground arith,
  )
