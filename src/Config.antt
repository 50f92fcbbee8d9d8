-- ===== src/Config.antt =====
-- internal/config/config.go: the configuration and the defaults of `applyDefaults`. A duration is its
-- nanoseconds; reading the file and parsing the YAML are not modelled.
pub mod Checks
pub mod Authorities
pub mod Validate
pub mod Load
use komari_bridge.Base.{String, ◌==◌, Bool, List, [], ◌∷◌, map, if◌then◌else◌}
use komari_bridge.Base.Int.{ℤ, pos, eqb_ℤ}
use komari_bridge.Base.Dict.{Dict}

pub record KomariConfig : Type 0 where
  pub endpoint : String
  pub auto_discovery_key : String
  pub timeout : ℤ

pub record DatabaseConfig : Type 0 where
  pub path : String

pub record HttpConfig : Type 0 where
  pub listen : String
  pub api_key : String

pub record SchedulerConfig : Type 0 where
  pub interval : ℤ

pub record ResourceIdentity : Type 0 where
  pub source_type : String
  pub source_id : String
  pub external_id : String

pub record DockerConfig : Type 0 where
  pub id : String
  pub endpoint : String
  pub group : String
  pub attach_to : ResourceIdentity
  pub include_all : Bool
  pub include_stopped : Bool
  pub insecure_allow_http : Bool
  pub insecure_skip_verify : Bool
  pub tls_ca_file : String
  pub tls_cert_file : String
  pub tls_key_file : String

pub record ResourceOverride : Type 0 where
  pub name : String
  pub os : String
  pub arch : String
  pub guest_memory : String

pub record ProxmoxConfig : Type 0 where
  pub id : String
  pub endpoint : String
  pub token_id : String
  pub token_secret : String
  pub group : String
  pub insecure_skip_verify : Bool
  pub skip_stopped : Bool
  pub exclude_resources : List String
  pub names : Dict String
  pub resources : Dict ResourceOverride

pub record LinuxSshConfig : Type 0 where
  pub id : String
  pub address : String
  pub user : String
  pub private_key_path : String
  pub private_key : String
  pub password : String
  pub host_key : String
  pub insecure_ignore_host_key : Bool
  pub name : String
  pub group : String
  pub os : String
  pub attach_to : ResourceIdentity
  pub enable_nvidia : Bool
  pub enable_slurm : Bool

pub record WindowsSshConfig : Type 0 where
  pub id : String
  pub address : String
  pub user : String
  pub private_key_path : String
  pub private_key : String
  pub password : String
  pub host_key : String
  pub insecure_ignore_host_key : Bool
  pub name : String
  pub group : String
  pub attach_to : ResourceIdentity
  pub enable_nvidia : Bool
  pub discover_wsl : Bool
  pub wsl_names : Dict String

pub record ProvidersConfig : Type 0 where
  pub proxmox : List ProxmoxConfig
  pub docker : List DockerConfig
  pub agentless_ssh : List LinuxSshConfig
  pub slurm : List LinuxSshConfig
  pub windows_wsl : List WindowsSshConfig
  pub linux_ssh : List LinuxSshConfig
  pub windows_ssh : List WindowsSshConfig

pub record Config : Type 0 where
  pub komari : KomariConfig
  pub database : DatabaseConfig
  pub http : HttpConfig
  pub scheduler : SchedulerConfig
  pub providers : ProvidersConfig

unfoldable pub is_empty : String → Bool
is_empty s = s == ""

abbrev pub or_text : String → String → String
or_text s default = if is_empty s then default else s

abbrev pub or_duration : ℤ → ℤ → ℤ
or_duration d default = if eqb_ℤ d (pos 0) then default else d

abbrev pub docker_default : DockerConfig → DockerConfig
docker_default d = record d { endpoint = or_text d.endpoint "unix:///var/run/docker.sock" }

unfoldable pub apply_defaults : Config → Config
unfolding is_empty
apply_defaults cfg = record cfg {
  database = record cfg.database { path = or_text cfg.database.path "./data/komari-bridge.db" };
  komari = record cfg.komari { timeout = or_duration cfg.komari.timeout (pos 10_000_000_000) };
  http = record cfg.http { listen = or_text cfg.http.listen "127.0.0.1:9090" };
  scheduler = record cfg.scheduler {
    interval = or_duration cfg.scheduler.interval (pos 20_000_000_000);
  };
  providers = record cfg.providers { docker = map docker_default cfg.providers.docker };
}
