-- ===== src/Linux/Provider.antt =====
-- providers/linuxssh/linuxssh.go: the provider, its constructors and the resource that it describes.
use komari_bridge.Base.{
  ℕ, String, ◌<>◌, Bool, true, false, ◌&&◌, ◌||◌, List, [], ◌∷◌, if◌then◌else◌,
}
use komari_bridge.Model.{Identity}
use komari_bridge.Config.{LinuxSshConfig, ResourceIdentity, is_empty}
use komari_bridge.Slurm.{Clusters}
use komari_bridge.Ssh.Connection.{Session}
use komari_bridge.Ssh.Counters.{CpuCounters, NetworkCounters}

-- The fields that are fixed when a provider is made; `has_store` says that it was given a store.
pub record Provider : Type 0 where
  pub cfg : LinuxSshConfig
  pub source_type : String
  pub slurm_only : Bool
  pub has_store : Bool

-- `New`, `NewAgentless` and `NewSlurm`, whose authentication is Ssh.Auth's.
abbrev pub new_linux : LinuxSshConfig → Provider
new_linux cfg = record {
  cfg = cfg;
  source_type = "linux_ssh";
  slurm_only = false;
  has_store = true;
}

abbrev pub new_agentless : LinuxSshConfig → Provider
new_agentless cfg = record {
  cfg = cfg;
  source_type = "agentless_ssh";
  slurm_only = false;
  has_store = false;
}

abbrev pub new_slurm : LinuxSshConfig → Provider
new_slurm cfg = record {
  cfg = record cfg { enable_slurm = true; enable_nvidia = false };
  source_type = "slurm";
  slurm_only = true;
  has_store = true;
}

abbrev pub identity_of : ResourceIdentity → Identity
identity_of i = record {
  source_type = i.source_type;
  source_id = i.source_id;
  external_id = i.external_id;
}

unfoldable pub metric_targets : Provider → List Identity
metric_targets p =
    if p.slurm_only || is_empty p.cfg.attach_to.source_type
    then []
    else identity_of p.cfg.attach_to ∷ []

unfoldable pub host_identity : Provider → Identity
host_identity p =
    if is_empty p.cfg.attach_to.source_type
    then record {
      source_type = p.source_type;
      source_id = p.cfg.id;
      external_id = "host:" <> p.cfg.id;
    }
    else identity_of p.cfg.attach_to

pub record State : Type 0 where
  pub session : Session
  pub previous_cpu : CpuCounters
  pub previous_net : NetworkCounters
  pub previous_at : ℕ
  pub clusters : Clusters

-- Is the state of a cluster stored?
abbrev pub keeps_cluster : Provider → Bool
keeps_cluster p = p.cfg.enable_slurm && p.has_store
