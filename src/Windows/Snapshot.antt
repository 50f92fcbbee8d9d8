-- ===== src/Windows/Snapshot.antt =====
-- providers/windowsssh/windowsssh.go: `wslSnapshot`, for each distribution.
use komari_bridge.Base.{
  ℕ, String, ◌<>◌, Bool, true, false, Option, none, some, get_or, List, [], ◌∷◌, if◌then◌else◌, ok,
  err,
}
use komari_bridge.Base.Int.{pos}
use komari_bridge.Base.Words.{to_int64}
use komari_bridge.Base.Time.{time_sub}
use komari_bridge.Base.Dict.{lookup, insert}
use komari_bridge.Base.Floats.{Float64}
use komari_bridge.Base.Text.{to_lower, itoa}
use komari_bridge.Model.{
  BasicInfo, LoadReport, GpuReport, GpuDevice, Report, Snapshot, Usage, empty_basic_info,
  empty_report,
}
use komari_bridge.Config.{is_empty}
use komari_bridge.Ssh.Counters.{
  CpuCounters, NetworkCounters, clamp_used, bytes_of, counter_percent, rates,
}
use komari_bridge.Ssh.Gpus.{format_gpu_name, gpu_report}
use komari_bridge.Linux.Report.{kilobytes}
use komari_bridge.Windows.Report.{WslReport, WslData, validate_wsl_data}
use komari_bridge.Windows.Probe.{offline}
use komari_bridge.Windows.Provider.{Provider, WslHistory}

unfoldable pub remember_wsl : String → CpuCounters → NetworkCounters → ℕ → WslHistory → WslHistory
unfolding insert
remember_wsl guid cpu net now h = record {
  cpu = insert guid cpu h.cpu;
  net = insert guid net h.net;
  at = insert guid now h.at;
}

abbrev wsl_version : Provider → String
wsl_version p = if p.emit_host then "komari-bridge/windows-ssh" else "komari-bridge/windows-wsl"

module _ {F : Type 0} ⦃fl : Float64 F⦄ where
  open fl use {of_int}

  abbrev load_of : List F → LoadReport F → LoadReport F
  load_of (load1 ∷ load5 ∷ load15 ∷ _) none_given = record {
    load1 = load1;
    load5 = load5;
    load15 = load15;
  }
  load_of _ none_given = none_given

  abbrev pub memory_usage : String → String → WslData F → Usage
  memory_usage total free raw =
      let size = bytes_of (kilobytes total raw.memory) in
      record { total = size; used = clamp_used size (bytes_of (kilobytes free raw.memory)) }

  abbrev pub gpu_part : Bool → List (GpuDevice F) → Option (GpuReport F)
  gpu_part enabled [] = none
  gpu_part enabled (gpu ∷ gpus) = if enabled then some (gpu_report (gpu ∷ gpus)) else none

  unfoldable pub wsl_report : Provider → ℕ → String → WslData F → WslHistory → Report F
  unfolding counter_percent rates gpu_report to_int64 time_sub lookup
  wsl_report p now guid contents h =
      let empty = empty_report (of_int (pos 0)) in
      let last_cpu = get_or (lookup guid h.cpu) (record { total = 0; idle = 0 }) in
      let last_net = get_or (lookup guid h.net) (record { up = 0; down = 0 }) in
      let speed = rates fl contents.network last_net (time_sub now (get_or (lookup guid h.at) 0)) in
      record empty {
        cpu = record {
          name = contents.cpu_name;
          cores = contents.cpu_cores;
          arch = contents.arch;
          usage = counter_percent contents.cpu last_cpu;
        };
        ram = memory_usage "MemTotal" "MemAvailable" contents;
        swap = memory_usage "SwapTotal" "SwapFree" contents;
        load = load_of contents.load empty.load;
        disk = record { total = contents.disk_total; used = contents.disk_used };
        disks = contents.disks;
        network = record {
          up = speed.0;
          down = speed.1;
          total_up = to_int64 contents.network.up;
          total_down = to_int64 contents.network.down;
        };
        gpu = gpu_part p.cfg.enable_nvidia contents.gpus;
        uptime = contents.uptime;
        process = contents.processes;
      }

  unfoldable pub wsl_info : Provider → WslData F → BasicInfo
  unfolding format_gpu_name
  wsl_info p contents = record empty_basic_info {
    cpu_name = contents.cpu_name;
    cpu_cores = contents.cpu_cores;
    cpu_physical_cores = contents.cpu_physical_cores;
    arch = contents.arch;
    os = contents.os;
    kernel_version = contents.kernel;
    memory_total = bytes_of (kilobytes "MemTotal" contents.memory);
    swap_total = bytes_of (kilobytes "SwapTotal" contents.memory);
    disk_total = contents.disk_total;
    gpu_name = format_gpu_name contents.gpus;
    virtualization = "wsl";
    version = wsl_version p;
  }

  -- The snapshot of a distribution before its data is looked at.
  abbrev pub wsl_base : Provider → ℕ → WslReport F → Bool → Snapshot F
  wsl_base p now raw online =
      let alias = get_or (lookup raw.name p.cfg.wsl_names) "" in
      record {
        identity = record {
          source_type = p.source_type;
          source_id = p.cfg.id;
          external_id = "wsl:" <> to_lower raw.guid;
        };
        parent_external_id = p.cfg.attach_to.external_id;
        name = if is_empty alias then raw.name else alias;
        resource_type = "wsl";
        group = p.cfg.group;
        tags =
            ("metrics_source", if p.emit_host then "windows_ssh_wsl" else "windows_wsl")
            ∷ ("distribution", raw.name)
            ∷ ("wsl_version", itoa raw.version)
            ∷ [];
        basic_info = record empty_basic_info {
          os = "WSL" <> (itoa raw.version <> (" " <> raw.name));
          virtualization = "wsl";
          version = wsl_version p;
        };
        report = empty_report (of_int (pos 0));
        collected_at = now;
        online = online;
        priority = pos 100;
      }

  abbrev pub wsl_with :
      Provider → ℕ → WslReport F → Option (WslData F) → WslHistory → Snapshot F × WslHistory
  wsl_with p now raw none h = (wsl_base p now raw false, h)
  wsl_with p now raw (some contents) h =
      if raw.online
      then (
        record (wsl_base p now raw true) {
          basic_info = wsl_info p contents;
          report = wsl_report p now raw.guid contents h;
        },
        remember_wsl raw.guid contents.cpu contents.network now h,
      )
      else (wsl_base p now raw false, h)

  unfoldable pub wsl_snapshot : Provider → ℕ → WslReport F → WslHistory → Snapshot F × WslHistory
  unfolding wsl_report wsl_info remember_wsl lookup to_lower itoa
  wsl_snapshot p now raw h = wsl_with p now raw raw.contents h

  abbrev pub if_valid : WslReport F → Option (WslData F) → WslReport F
  if_valid raw none = raw
  if_valid raw (some contents) = elim (validate_wsl_data contents false) [
    | ok _ ↦ raw
    | err _ ↦ if raw.online then offline raw else raw
  ]

  -- A distribution whose data is not sound is shown offline.
  unfoldable pub checked_wsl : WslReport F → WslReport F
  unfolding validate_wsl_data
  checked_wsl raw = if_valid raw raw.contents

  unfoldable pub wsl_snapshots :
      Provider → ℕ → List (WslReport F) → WslHistory → List (Snapshot F) × WslHistory
  unfolding wsl_snapshot checked_wsl
  wsl_snapshots p now [] h = ([], h)
  wsl_snapshots p now (d ∷ ds) h =
      let first = wsl_snapshot p now (checked_wsl d) h in
      let rest = wsl_snapshots p now ds first.1 in (first.0 ∷ rest.0, rest.1)
