-- ===== src/App.antt =====
-- The whole bridge: the providers that internal/bridge/runner.go's `Cycle` calls, with what each of
-- them keeps between two collections, and one collection of any of them. The store of the Slurm
-- clusters is shared by the Linux providers and the HTTP API (cmd/komari-bridge/main.go), so it is
-- passed from one collection to the next.
pub mod Cycle
pub mod Steps
pub mod Healthy
pub mod Stable
pub mod Refines
pub mod Runs
pub mod Visible
pub mod Start
pub mod Main
pub mod Owners
pub mod Order
use komari_bridge.Base.{ℕ, String, Option, none, some, List, [], ◌∷◌, map, Result, ok, err}
use komari_bridge.Base.Dict.{Dict}
use komari_bridge.Base.Floats.{Float64}
use komari_bridge.Model.{Identity, Snapshot}
use komari_bridge.Config.{DockerConfig}
use komari_bridge.Slurm.{Clusters, new_store}
use komari_bridge.Ssh.Connection.{new_session}
use komari_bridge.Bridge.Gather.{Collected}
use komari_bridge.Docker.Samples.{NetworkSample}
use komari_bridge.Docker.Collect as Docker
use komari_bridge.Docker.Requests.{Replies, engine_of}
use komari_bridge.Linux.Collect as Linux
use komari_bridge.Linux.Provider as LinuxProvider
use komari_bridge.Windows.Collect as Windows
use komari_bridge.Windows.Provider as WindowsProvider
use komari_bridge.Proxmox.Collect as Proxmox
use komari_bridge.Proxmox.Provider as ProxmoxProvider
use komari_bridge.Command as Command

-- A provider at work: the caches of a Proxmox one, the samples of a Docker one, and the connection
-- and the counters of the others. The clusters in a Linux state are those of its last collection.
pub data Live (F : Type 0) : Type 0 where
  proxmox : ProxmoxProvider.Provider → ProxmoxProvider.Caches → Live F
  docker : DockerConfig → Dict NetworkSample → Live F
  linux : LinuxProvider.Provider → LinuxProvider.State → Live F
  windows : WindowsProvider.Provider → WindowsProvider.State F → Live F

-- What the world outside answers to one collection, whichever provider makes it; an SSH provider's
-- host comes with the time of the collection.
pub record World (F : Type 0) : Type 0 where
  pub proxmox_api : Proxmox.Api F
  pub docker_engine : Replies
  pub linux_host : Linux.Host F × ℕ
  pub windows_host : Windows.Host F × ℕ

abbrev pub new_linux_state : LinuxProvider.State
new_linux_state = record {
  session = new_session;
  previous_cpu = record { total = 0; idle = 0 };
  previous_net = record { up = 0; down = 0 };
  previous_at = 0;
  clusters = new_store;
}

abbrev pub new_windows_state : {F : Type 0} → WindowsProvider.State F
new_windows_state = record {
  session = new_session;
  previous_net = record { up = 0; down = 0 };
  previous_at = 0;
  wsl = record { cpu = []; net = []; at = [] };
  wsl_gpus = [];
}

-- What `Collect` returns, without the text of its error.
abbrev pub outcome : {E A : Type 0} → Result E A → Option A
outcome (ok a) = some a
outcome (err e) = none

-- What `Collect` returns, the provider after it, and the store of the clusters.
pub record Turn (F : Type 0) : Type 0 where
  pub snapshots : Option (List (Snapshot F))
  pub live : Live F
  pub stored : Clusters

module _ {F : Type 0} where
  -- A provider as its constructor leaves it.
  unfoldable pub start_live : Command.Provider → Live F
  start_live (Command.proxmox p c) = proxmox p c
  start_live (Command.docker cfg client) = docker cfg []
  start_live (Command.linux p auth) = linux p new_linux_state
  start_live (Command.windows p auth) = windows p new_windows_state

  -- `SourceType`, `ID` and `MetricTargets`, which only the SSH providers have.
  unfoldable pub live_source : Live F → String × String
  live_source (proxmox p c) = ("proxmox", p.source.id)
  live_source (docker cfg samples) = ("docker", cfg.id)
  live_source (linux p st) = (p.source_type, p.cfg.id)
  live_source (windows p st) = (p.source_type, p.cfg.id)

  unfoldable pub live_targets : Live F → List Identity
  unfolding LinuxProvider.metric_targets WindowsProvider.metric_targets
  live_targets (proxmox p c) = []
  live_targets (docker cfg samples) = []
  live_targets (linux p st) = LinuxProvider.metric_targets p
  live_targets (windows p st) = WindowsProvider.metric_targets p

  module _ ⦃fl : Float64 F⦄ where
    unfoldable pub collect_live : World F → Live F → Clusters → Turn F
    unfolding Proxmox.collect engine_of Docker.collect Linux.collect Windows.collect
    collect_live w (proxmox p c) stored =
        let done = Proxmox.collect p w.proxmox_api c in
        record { snapshots = outcome done.0; live = proxmox p done.1; stored = stored }
    collect_live w (docker cfg samples) stored =
        let done = Docker.collect cfg (engine_of w.docker_engine) samples in
        record { snapshots = outcome done.0; live = docker cfg done.1; stored = stored }
    collect_live w (linux p st) stored =
        let done =
          Linux.collect w.linux_host.0 p w.linux_host.1 (record st { clusters = stored }) in
        record { snapshots = outcome done.0; live = linux p done.1; stored = done.1.clusters }
    collect_live w (windows p st) stored =
        let done = Windows.collect w.windows_host.0 p w.windows_host.1 st in
        record { snapshots = outcome done.0; live = windows p done.1; stored = stored }

    -- What the cycle learns of a provider.
    abbrev pub learned : Live F → Turn F → Collected F
    learned p t = record {
      source_type = (live_source p).0;
      id = (live_source p).1;
      targets = live_targets p;
      snapshots = t.snapshots;
    }
