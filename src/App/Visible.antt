-- ===== src/App/Visible.antt =====
-- What the HTTP API shows of a Slurm cluster while the bridge runs.
use komari_bridge.Base.{◌≡◌, refl, ◌⊎◌, String, ◌<>◌, ◌==◌, Bool, true, false, ◌&&◌, List, err}
use komari_bridge.Base.Floats.{Float64}
use komari_bridge.Buildinfo.{Build}
use komari_bridge.Slurm.{Clusters, get}
use komari_bridge.HttpApi.{one_slurm, cluster, handle, provided_key}
use komari_bridge.Ssh.Connection.{RunError, run}
use komari_bridge.Linux.Cluster.{unavailable}
use komari_bridge.Linux.Provider.{Provider, keeps_cluster}
use komari_bridge.Linux.Provider as LinuxProvider
use komari_bridge.Linux.Collect.Written.{get-collect}
use komari_bridge.Linux.Collect.Store.{collect_failed}
use komari_bridge.Bridge.Gather.{Gathered}
use komari_bridge.Bridge.Process.{Env, Reporter}
use komari_bridge.App.{Live, proxmox, docker, linux, windows, World, collect_live}
use komari_bridge.App.Steps.{
  State, gathering, stored_in, Step, begins, collects, merges, submits, ends, stops,
}

-- Does the provider store the cluster of the id?
abbrev pub writes : {F : Type 0} → String → Live F → Bool
writes id (linux p st) = keeps_cluster p && (p.cfg.id == id)
writes id _ = false

module _ {F : Type 0} ⦃fl : Float64 F⦄ where
  get-collect_live :
      (id : String) (w : World F) (p : Live F) (c : Clusters)
      → writes id p ≡ false
      → get id (collect_live w p c).stored ≡ get id c
  unfolding collect_live
  get-collect_live id w (proxmox p caches) c other = refl
  get-collect_live id w (docker cfg samples) c other = refl
  get-collect_live id w (linux p st) c other =
      get-collect id w.linux_host.0 p w.linux_host.1 (record st { clusters = c }) other
  get-collect_live id w (windows p st) c other = refl

  module _ (env : Env F) (build : Build) (authorities : List String) (id : String) where
    abbrev stores : {s t : State F} → Step env build authorities s t → Bool
    stores (collects w {p = p}) = writes id p
    stores _ = false

    -- Steps in which no provider that stores the cluster of the id collects.
    pub data Quiet (s : State F) : State F → Type 0 where
      still : Quiet s s
      goes_on :
          {t u : State F}
          → Quiet s t
          → (step : Step env build authorities t u) → stores step ≡ false
          → Quiet s u

    get-step :
        {s t : State F} (step : Step env build authorities s t)
        → stores step ≡ false
        → get id (stored_in t) ≡ get id (stored_in s)
    get-step begins quiet = refl
    get-step (collects w {c = c} {p = p}) quiet = get-collect_live id w p c quiet
    get-step (merges order) quiet = refl
    get-step submits quiet = refl
    get-step ends quiet = refl
    get-step stops quiet = refl

    get-Quiet : {s t : State F} → Quiet s t → get id (stored_in t) ≡ get id (stored_in s)
    get-Quiet still = refl
    get-Quiet (goes_on before step quiet) = rw (get-step step quiet) (get-Quiet before)

  module _ (env : Env F) (build : Build) (authorities : List String) (api_key header : String)
      (may : (api_key ≡ "") ⊎ (provided_key header ≡ api_key)) where
    -- After a collection whose run failed, and then through any steps of the bridge up to the next
    -- collection of a provider that stores the cluster, the API answers a request that it lets pass
    -- with the cluster as unavailable, with the time and the error of that collection.
    pub handle-unavailable :
        (w : World F) (p : Provider) (st : LinuxProvider.State) (c : Clusters)
        (ps todo : List (Live F)) (g : Gathered F) (r : Reporter F) (e : RunError) {s : State F}
        → keeps_cluster p ≡ true
        → (run w.linux_host.0.remote st.session).0 ≡ err e
        → Quiet env build authorities p.cfg.id
            (gathering (collect_live w (linux p st) c).stored ps todo g r)
            s
        → handle api_key (stored_in s) header (one_slurm p.cfg.id) ≡ record {
          status = 200;
          payload = cluster (
              unavailable p.cfg.id w.linux_host.1
                ("SSH collection failed: " <> w.linux_host.0.error_text e));
        }
    unfolding handle collect_live
    handle-unavailable w p st c ps todo g r e keeps failed quiet =
        rw (get-Quiet env build authorities p.cfg.id quiet)
          (collect_failed api_key header may w.linux_host.0 p w.linux_host.1
            (record st { clusters = c }) e keeps failed).0
