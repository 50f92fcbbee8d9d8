-- ===== src/Windows/Provider.antt =====
-- providers/windowsssh/windowsssh.go: the provider, its constructors and its state.
use komari_bridge.Base.{ℕ, String, ◌<>◌, Bool, true, false, not, ◌||◌, List, [], ◌∷◌, if◌then◌else◌}
use komari_bridge.Base.Dict.{Dict}
use komari_bridge.Model.{Identity}
use komari_bridge.Config.{WindowsSshConfig, is_empty}
use komari_bridge.Ssh.Connection.{Session}
use komari_bridge.Ssh.Counters.{CpuCounters, NetworkCounters}
use komari_bridge.Linux.Provider.{identity_of}
use komari_bridge.Windows.Probe.{GpuCache}

pub record Provider : Type 0 where
  pub cfg : WindowsSshConfig
  pub source_type : String
  pub emit_host : Bool

-- `New` and `NewWSL`.
abbrev pub new_windows : WindowsSshConfig → Provider
new_windows cfg = record { cfg = cfg; source_type = "windows_ssh"; emit_host = true }

abbrev pub new_wsl : WindowsSshConfig → Provider
new_wsl cfg = record {
  cfg = record cfg { discover_wsl = true; enable_nvidia = false };
  source_type = "windows_wsl";
  emit_host = false;
}

unfoldable pub metric_targets : Provider → List Identity
metric_targets p =
    if not p.emit_host || is_empty p.cfg.attach_to.source_type
    then []
    else identity_of p.cfg.attach_to ∷ []

unfoldable pub host_identity : Provider → Identity
host_identity p =
    if is_empty p.cfg.attach_to.source_type
    then record {
      source_type = p.source_type;
      source_id = p.cfg.id;
      external_id = "host:" <> p.cfg.id;
    }
    else identity_of p.cfg.attach_to

-- The maps `previousWSL`, `previousWNet` and `previousWAt`, by the distribution's GUID.
pub record WslHistory : Type 0 where
  pub cpu : Dict CpuCounters
  pub net : Dict NetworkCounters
  pub at : Dict ℕ

pub record State (F : Type 0) : Type 0 where
  pub session : Session
  pub previous_net : NetworkCounters
  pub previous_at : ℕ
  pub wsl : WslHistory
  pub wsl_gpus : GpuCache F
