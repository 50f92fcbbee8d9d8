-- ===== src/Command.antt =====
-- cmd/komari-bridge/main.go: `buildProviders`, and the providers that it makes, each of which fails
-- as its constructor does.
pub mod Sources
pub mod Targets
pub mod Owners
pub mod Fresh
use komari_bridge.Base.{
  ℕ, ◌≡◌, String, List, [], ◌∷◌, ◌++◌, map, Result, ok, err, ◌>>=◌, ◌>>◌, Option,
}
use komari_bridge.Config.{
  ProxmoxConfig, DockerConfig, LinuxSshConfig, WindowsSshConfig, ProvidersConfig,
}
use komari_bridge.Proxmox.Provider.{NewError, new_provider}
use komari_bridge.Docker.Client.{Library, ClientError, Transport, docker_http_client}
use komari_bridge.Ssh.Auth.{AuthError, AuthMethod, Keys, auth_methods}
use komari_bridge.Linux.Provider.{new_linux, new_agentless, new_slurm}
use komari_bridge.Windows.Provider.{new_windows, new_wsl}
use komari_bridge.Linux.Provider as Linux
use komari_bridge.Windows.Provider as Windows
use komari_bridge.Proxmox.Provider as Proxmox

-- A provider with what it starts from: the caches of a Proxmox one, the client of a Docker one, and
-- the authentication of the others.
pub data Provider : Type 0 where
  proxmox : Proxmox.Provider → Proxmox.Caches → Provider
  docker : DockerConfig → String × Transport → Provider
  linux : Linux.Provider → List AuthMethod → Provider
  windows : Windows.Provider → List AuthMethod → Provider

pub data BuildError : Type 0 where
  proxmox_failed : NewError → BuildError
  docker_failed : ClientError → BuildError
  ssh_failed : AuthError → BuildError

-- `SourceType` and `ID`.
abbrev pub source_of : Provider → String × String
source_of (proxmox p _) = ("proxmox", p.source.id)
source_of (docker cfg _) = ("docker", cfg.id)
source_of (linux p _) = (p.source_type, p.cfg.id)
source_of (windows p _) = (p.source_type, p.cfg.id)

abbrev pub made : {A B E : Type 0} → (A → B) → (E → BuildError) → Result E A → Result BuildError B
made f fail (ok a) = ok (f a)
made f fail (err e) = err (fail e)

-- One of the loops, onto the providers so far.
unfoldable pub build_each :
    {A : Type 0}
    → (A → Result BuildError Provider)
    → List A
    → List Provider
    → Result BuildError (List Provider)
build_each make [] built = ok built
build_each make (cfg ∷ cfgs) built = do p ← make cfg; build_each make cfgs (built ++ p ∷ [])

abbrev pub make_proxmox : (String → Option Proxmox.Url) → ProxmoxConfig → Result BuildError Provider
make_proxmox parse_url cfg =
    made (λ made_one. proxmox made_one.0 made_one.1) proxmox_failed (new_provider parse_url cfg)

abbrev pub make_docker : Library → DockerConfig → Result BuildError Provider
make_docker lib cfg = made (docker cfg) docker_failed (docker_http_client lib cfg)

-- `newProvider` of the Linux and of the Windows package.
abbrev pub make_linux :
    Keys → (LinuxSshConfig → Linux.Provider) → LinuxSshConfig → Result BuildError Provider
make_linux keys make cfg =
    made (linux (make cfg)) ssh_failed
      (auth_methods keys cfg.private_key_path cfg.private_key cfg.password)

abbrev pub make_windows :
    Keys → (WindowsSshConfig → Windows.Provider) → WindowsSshConfig → Result BuildError Provider
make_windows keys make cfg =
    made (windows (make cfg)) ssh_failed
      (auth_methods keys cfg.private_key_path cfg.private_key cfg.password)

module _ (parse_url : String → Option Proxmox.Url) (lib : Library) (keys : Keys) where
  unfoldable pub build_providers : ProvidersConfig → Result BuildError (List Provider)
  unfolding build_each new_provider docker_http_client auth_methods
  build_providers cfg = do
    from_proxmox ← build_each (make_proxmox parse_url) cfg.proxmox []
    from_docker ← build_each (make_docker lib) cfg.docker from_proxmox
    from_agentless ← build_each (make_linux keys new_agentless) cfg.agentless_ssh from_docker
    from_slurm ← build_each (make_linux keys new_slurm) cfg.slurm from_agentless
    from_wsl ← build_each (make_windows keys new_wsl) cfg.windows_wsl from_slurm
    from_linux ← build_each (make_linux keys new_linux) cfg.linux_ssh from_wsl
    build_each (make_windows keys new_windows) cfg.windows_ssh from_linux
