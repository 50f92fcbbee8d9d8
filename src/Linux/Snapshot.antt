-- ===== src/Linux/Snapshot.antt =====
-- providers/linuxssh/linuxssh.go: the report and the snapshot that `Collect` makes of the output.
pub mod Sound
use komari_bridge.Base.{
  ℕ, String, ◌<>◌, Bool, true, false, not, ◌&&◌, ◌||◌, Option, none, some, List, [], ◌∷◌, length,
  if◌then◌else◌, Result, ok, err,
}
use komari_bridge.Base.Int.{ℤ, pos}
use komari_bridge.Base.Words.{to_int64}
use komari_bridge.Base.Time.{time_sub}
use komari_bridge.Base.Floats.{Float64}
use komari_bridge.Base.Text.{first_non_empty}
use komari_bridge.Model.{
  Identity, BasicInfo, LoadReport, Report, Snapshot, Usage, empty_basic_info, empty_report,
}
use komari_bridge.Config.{LinuxSshConfig, ResourceIdentity, is_empty}
use komari_bridge.Slurm.{Clusters, ClusterSnapshot, set}
use komari_bridge.Ssh.Connection.{Remote, RunError, Session, close_locked, run}
use komari_bridge.Ssh.Counters.{
  CpuCounters, NetworkCounters, clamp_used, bytes_of, counter_percent, rates,
}
use komari_bridge.Ssh.Gpus.{format_gpu_name, gpu_report}
use komari_bridge.Linux.Report.{RemoteReport, ReportError, kilobytes, validate_remote_report}
use komari_bridge.Linux.Cluster.{cluster_of, cluster_message, unavailable}
use komari_bridge.Linux.Provider.{Provider, State, keeps_cluster, host_identity}

module _ {F : Type 0} ⦃fl : Float64 F⦄ where
  open fl use {of_int}

  abbrev load_of : List F → LoadReport F → LoadReport F
  load_of (load1 ∷ load5 ∷ load15 ∷ _) none_given = record {
    load1 = load1;
    load5 = load5;
    load15 = load15;
  }
  load_of _ none_given = none_given

  abbrev pub memory_usage : String → String → RemoteReport F → Usage
  memory_usage total free raw =
      let size = bytes_of (kilobytes total raw.memory) in
      record { total = size; used = clamp_used size (bytes_of (kilobytes free raw.memory)) }

  unfoldable pub report_of : Provider → ℕ → RemoteReport F → State → Report F
  unfolding counter_percent rates cluster_of cluster_message gpu_report to_int64 time_sub
  report_of p now raw st =
      let empty = empty_report (of_int (pos 0)) in
      let speed = rates fl raw.network st.previous_net (time_sub now st.previous_at) in
      record empty {
        cpu = record {
          name = raw.cpu_name;
          cores = raw.cpu_cores;
          arch = raw.arch;
          usage = counter_percent raw.cpu st.previous_cpu;
        };
        ram = memory_usage "MemTotal" "MemAvailable" raw;
        swap = memory_usage "SwapTotal" "SwapFree" raw;
        load = load_of raw.load empty.load;
        disk = record { total = raw.disk_total; used = raw.disk_used };
        disks = raw.disks;
        network = record {
          up = speed.0;
          down = speed.1;
          total_up = to_int64 raw.network.up;
          total_down = to_int64 raw.network.down;
        };
        connections = record { tcp = raw.tcp; udp = raw.udp };
        gpu = elim raw.gpus [
          | [] ↦ none
          | gpu ∷ gpus ↦ if p.cfg.enable_nvidia then some (gpu_report (gpu ∷ gpus)) else none
        ];
        uptime = raw.uptime;
        process = raw.processes;
        message =
            if keeps_cluster p && raw.slurm.available
            then cluster_message (cluster_of p.cfg.id now raw.slurm)
            else "";
      }

  unfoldable pub basic_info_of : Provider → RemoteReport F → BasicInfo
  unfolding format_gpu_name
  basic_info_of p raw = record empty_basic_info {
    cpu_name = raw.cpu_name;
    cpu_cores = raw.cpu_cores;
    cpu_physical_cores = raw.cpu_physical_cores;
    arch = raw.arch;
    os = if is_empty p.cfg.os then raw.os else p.cfg.os;
    kernel_version = raw.kernel;
    memory_total = bytes_of (kilobytes "MemTotal" raw.memory);
    swap_total = bytes_of (kilobytes "SwapTotal" raw.memory);
    disk_total = raw.disk_total;
    gpu_name = format_gpu_name raw.gpus;
    version = "komari-bridge/agentless-ssh";
  }

  unfoldable pub snapshot_of : Provider → ℕ → RemoteReport F → State → Snapshot F
  unfolding report_of basic_info_of host_identity first_non_empty
  snapshot_of p now raw st = record {
    identity = host_identity p;
    parent_external_id = "";
    name = first_non_empty (p.cfg.name ∷ p.cfg.id ∷ []);
    resource_type = if is_empty p.cfg.attach_to.source_type then "linux" else "";
    group = p.cfg.group;
    tags = ("metrics_source", p.source_type) ∷ [];
    basic_info = basic_info_of p raw;
    report = report_of p now raw st;
    collected_at = now;
    online = true;
    priority = pos 100;
  }
