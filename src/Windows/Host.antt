-- ===== src/Windows/Host.antt =====
-- providers/windowsssh/windowsssh.go: the snapshot of the Windows host that `Collect` makes.
use komari_bridge.Base.{ℕ, ◌==◌, true, [], ◌∷◌, if◌then◌else◌}
use komari_bridge.Base.Int.{ℤ, pos}
use komari_bridge.Base.Words.{to_int64}
use komari_bridge.Base.Floats.{Float64}
use komari_bridge.Base.Text.{first_non_empty}
use komari_bridge.Model.{Report, Snapshot, empty_basic_info, empty_report}
use komari_bridge.Config.{is_empty}
use komari_bridge.Ssh.Counters.{clamp_used}
use komari_bridge.Ssh.Gpus.{format_gpu_name, gpu_report}
use komari_bridge.Windows.Report.{WindowsReport}
use komari_bridge.Windows.Probe.{Probe}
use komari_bridge.Windows.Provider.{Provider, host_identity}
use komari_bridge.Windows.Snapshot.{gpu_part}

module _ {F : Type 0} ⦃fl : Float64 F⦄ where
  open fl use {of_int}

  unfoldable pub host_report : Provider → WindowsReport F → ℤ × ℤ → Probe F → Report F
  unfolding clamp_used gpu_report to_int64
  host_report p raw speed probe =
      let empty = empty_report (of_int (pos 0)) in
      record empty {
        cpu = record {
          name = raw.cpu_name;
          cores = raw.cpu_cores;
          arch = raw.arch;
          usage = raw.cpu_usage;
        };
        ram = record {
          total = raw.memory_total;
          used = clamp_used raw.memory_total raw.memory_free;
        };
        disk = record { total = raw.disk_total; used = clamp_used raw.disk_total raw.disk_free };
        disks = raw.disks;
        network = record {
          up = speed.0;
          down = speed.1;
          total_up = to_int64 raw.network_up;
          total_down = to_int64 raw.network_down;
        };
        gpu = gpu_part p.cfg.enable_nvidia probe.gpus;
        uptime = raw.uptime;
        process = raw.processes;
      }

  unfoldable pub host_snapshot : Provider → ℕ → WindowsReport F → ℤ × ℤ → Probe F → Snapshot F
  unfolding host_report host_identity first_non_empty format_gpu_name
  host_snapshot p now raw speed probe = record {
    identity = host_identity p;
    parent_external_id = "";
    name = first_non_empty (p.cfg.name ∷ p.cfg.id ∷ []);
    resource_type = if is_empty p.cfg.attach_to.source_type then "windows" else "";
    group = p.cfg.group;
    tags =
        ("metrics_source", "windows_ssh")
        ∷ (if probe.source == "windows" then [] else ("gpu_source", probe.source) ∷ []);
    basic_info = record empty_basic_info {
      cpu_name = raw.cpu_name;
      cpu_cores = raw.cpu_cores;
      cpu_physical_cores = raw.cpu_physical_cores;
      arch = raw.arch;
      os = raw.os;
      kernel_version = raw.kernel;
      memory_total = raw.memory_total;
      disk_total = raw.disk_total;
      gpu_name = format_gpu_name probe.gpus;
      version = "komari-bridge/windows-ssh";
    };
    report = host_report p raw speed probe;
    collected_at = now;
    online = true;
    priority = pos 100;
  }
