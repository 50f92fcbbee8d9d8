-- ===== src/Tests/Sources.antt =====
-- The properties of the configuration, the HTTP API and the Proxmox guests, at sample inputs.
use komari_bridge.Base.{arith, ◌≡◌, refl, ◌↔◌, ◌≢◌, String, true, false, [], ◌∷◌, All, ok}
use komari_bridge.Base.Int.{◌+ℤ◌, ◌*ℤ◌, pos, ◌<ℤ◌}
use komari_bridge.Slurm.{ClusterSnapshot, Clusters}
use komari_bridge.HttpApi.{one_slurm, handle, provided_key}
use komari_bridge.HttpApi.Access.{handle_unauthorized}
use komari_bridge.Config.{Config, ResourceIdentity, LinuxSshConfig, ProvidersConfig, apply_defaults}
use komari_bridge.Config.Validate.{validate, IsConfig, validate_iff}
use komari_bridge.Bridge.Validate.Sound.{IsUsage}
use komari_bridge.Proxmox.Memory.{GuestMemory, parse_guest_memory}
use komari_bridge.Proxmox.Disk.{
  GuestFilesystem, GuestDisk, IsGuestMount, summarize_guest_filesystems,
  summarize_guest_filesystems_sound,
}
use komari_bridge.Proxmox.Guest.{apply_guest_memory}
use komari_bridge.Proxmox.Guest.Sound.{apply_guest_memory-IsUsage}
use komari_bridge.Tests.Samples.{running}

abbrev target : ResourceIdentity
target = record { source_type = "proxmox"; source_id = "lab"; external_id = "qemu:100" }

abbrev pub agent : LinuxSshConfig
agent = record {
  id = "agent";
  address = "10.0.0.2";
  user = "root";
  private_key_path = "";
  private_key = "";
  password = "secret";
  host_key = "ssh-ed25519";
  insecure_ignore_host_key = false;
  name = "";
  group = "";
  os = "";
  attach_to = target;
  enable_nvidia = false;
  enable_slurm = false;
}

abbrev pub providers : ProvidersConfig
providers = record {
  proxmox = [];
  docker = [];
  agentless_ssh = agent ∷ [];
  slurm = [];
  windows_wsl = [];
  linux_ssh = agent ∷ [];
  windows_ssh = [];
}

abbrev pub sample_config : Config
sample_config = record {
  komari = record { endpoint = "https://komari"; auto_discovery_key = "key"; timeout = pos 0 };
  database = record { path = "" };
  http = record { listen = ""; api_key = "" };
  scheduler = record { interval = pos 0 };
  providers = providers;
}

validate_iff_example :
    (validate (apply_defaults sample_config) ≡ ok tt) ↔ IsConfig (apply_defaults sample_config)
validate_iff_example = validate_iff (apply_defaults sample_config)

abbrev idle : ClusterSnapshot
idle = record {
  source_id = "hpc";
  collected_at = 1;
  available = true;
  error = "";
  controller_up = true;
  node_daemon_up = true;
  partitions = [];
  jobs = [];
  jobs_running = pos 0;
  jobs_pending = pos 0;
  jobs_other = pos 0;
  gpus_configured = pos 8;
  gpus_allocated = pos 0;
}

abbrev one_cluster : Clusters
one_cluster = ("hpc", idle) ∷ []

abbrev api_key : String
api_key = "key"

key_ne : api_key ≢ ""
key_ne e = cc

wrong_ne : provided_key "Bearer guess" ≢ api_key
unfolding provided_key
wrong_ne e = cc

handle_unauthorized_example :
    handle api_key one_cluster "Bearer guess" (one_slurm "hpc")
    ≡ handle api_key [] "Bearer guess" (one_slurm "hpc")
handle_unauthorized_example =
    handle_unauthorized api_key "Bearer guess" one_cluster [] (one_slurm "hpc") key_ne wrong_ne

abbrev root_filesystem : GuestFilesystem
root_filesystem = record {
  name = "vda1";
  mountpoint = "/";
  type = "ext4";
  total_bytes = pos 1000;
  used_bytes = pos 400;
  disks = [];
}

abbrev root_disk : GuestDisk
root_disk = record {
  total = pos 1000;
  used = pos 400;
  mounts =
      record {
        name = "vda1";
        mountpoint = "/";
        filesystem = "ext4";
        device = "";
        total = pos 1000;
        used = pos 400;
      }
      ∷ [];
}

summarize_guest_filesystems_sound_example :
    (pos 0 <ℤ root_disk.total)
    × IsUsage root_disk.total root_disk.used
    × All IsGuestMount root_disk.mounts
unfolding summarize_guest_filesystems ◌+ℤ◌
summarize_guest_filesystems_sound_example =
    summarize_guest_filesystems_sound (root_filesystem ∷ []) root_disk refl

abbrev meminfo : String
meminfo = "MemTotal: 8 kB\nMemAvailable: 2 kB\nSwapTotal: 4 kB\nSwapFree: 4 kB\n"

abbrev memory : GuestMemory
memory = record {
  memory_total = pos 8192;
  memory_available = pos 2048;
  swap_total = pos 4096;
  swap_free = pos 4096;
}

apply_guest_memory-IsUsage_example :
    let t = apply_guest_memory memory false running in
    (pos 0 <ℤ t.basic_info.memory_total)
    × (t.basic_info.memory_total ≡ t.report.ram.total)
    × IsUsage t.report.ram.total t.report.ram.used
    × (t.basic_info.swap_total ≡ t.report.swap.total)
    × IsUsage t.report.swap.total t.report.swap.used
unfolding parse_guest_memory ◌*ℤ◌
apply_guest_memory-IsUsage_example =
    apply_guest_memory-IsUsage meminfo memory false running refl (omega arith)
