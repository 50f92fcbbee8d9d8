-- ===== src/Tests/Distributions.antt =====
-- The properties of the Windows provider, at sample WSL distributions.
use komari_bridge.Base.{true, false, some, List, [], ◌∷◌, All, arith}
use komari_bridge.Base.Int.{pos}
use komari_bridge.Model.{GpuDevice}
use komari_bridge.Config.{WindowsSshConfig}
use komari_bridge.Linux.Report.{kilobytes}
use komari_bridge.Windows.Report.{WslReport, WslData}
use komari_bridge.Windows.Provider.{new_wsl, WslHistory}
use komari_bridge.Windows.Snapshot.{wsl_snapshots}
use komari_bridge.Windows.Sound.{IsShown, wsl_snapshots-IsShown}
use komari_bridge.Tests.Samples.{Sample, num, Sample-Float64}
use komari_bridge.Tests.Sources.{agent}

abbrev gpu : GpuDevice Sample
gpu = record {
  name = "A100";
  memory_total = pos 80;
  memory_used = pos 8;
  utilization = num (pos 50);
  temperature = pos 40;
}

abbrev ubuntu : WslData Sample
ubuntu = record {
  cpu_name = "Xeon";
  cpu_cores = pos 8;
  cpu_physical_cores = pos 4;
  arch = "x86_64";
  os = "Ubuntu";
  kernel = "5.15";
  cpu = record { total = 1000; idle = 900 };
  memory = ("MemTotal", 2048) ∷ ("MemAvailable", 1024) ∷ [];
  load = [];
  disk_total = pos 4096;
  disk_used = pos 1024;
  disks = [];
  network = record { up = 10; down = 20 };
  uptime = pos 60;
  processes = pos 9;
  gpus = gpu ∷ [];
  gpu_ok = true;
}

abbrev unprobed : WslData Sample
unprobed = record ubuntu { gpus = []; gpu_ok = false }

abbrev windows_host : WindowsSshConfig
windows_host = record {
  id = "desk";
  address = "10.0.0.3";
  user = "admin";
  private_key_path = "";
  private_key = "";
  password = "secret";
  host_key = "ssh-ed25519";
  insecure_ignore_host_key = false;
  name = "";
  group = "";
  attach_to = agent.attach_to;
  enable_nvidia = false;
  discover_wsl = true;
  wsl_names = [];
}

-- A distribution with sound data, and one that uses more disk than it has.
abbrev distributions : List (WslReport Sample)
distributions =
    let good : WslReport Sample = record {
      guid = "{1}";
      name = "Ubuntu";
      version = pos 2;
      base_path = "";
      online = true;
      contents = some ubuntu;
    } in
    good
    ∷ record good { guid = "{2}"; contents = some (record ubuntu { disk_used = pos 9999 }) }
    ∷ []

abbrev no_history : WslHistory
no_history = record { cpu = []; net = []; at = [] }

wsl_snapshots-IsShown_example :
    All IsShown (wsl_snapshots (new_wsl windows_host) 5 distributions no_history).0
unfolding kilobytes
wsl_snapshots-IsShown_example =
    wsl_snapshots-IsShown (new_wsl windows_host) 5 distributions no_history
      ((omega arith, omega arith), ((omega arith, omega arith), tt))
