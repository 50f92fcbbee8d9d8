-- ===== src/Command/Fresh.antt =====
-- The built providers start without anything remembered.
use komari_bridge.Base.{
  ◌≡◌, refl, String, Option, none, some, List, [], ◌∷◌, ◌++◌, All, Result, ok, arith,
}
use komari_bridge.Config.{
  ProxmoxConfig, DockerConfig, LinuxSshConfig, WindowsSshConfig, ProvidersConfig,
}
use komari_bridge.Base.Text.{trim_slashes}
use komari_bridge.Proxmox.Provider.{new_provider, provider_at, Caches, no_caches}
use komari_bridge.Proxmox.Provider as Proxmox
use komari_bridge.Docker.Client.{Library}
use komari_bridge.Ssh.Auth.{Keys}
use komari_bridge.Linux.Provider as Linux
use komari_bridge.Windows.Provider as Windows
use komari_bridge.Command.{
  Provider, proxmox, BuildError, proxmox_failed, made, make_proxmox, make_docker, make_linux,
  make_windows, build_each, build_providers,
}
use komari_bridge.Command.Sources.{bound, made_view}

abbrev pub caches_of : Provider → Caches
caches_of (proxmox p c) = c
caches_of _ = no_caches

-- A provider with empty caches.
pub record IsFresh (p : Provider) : Type 0 where
  pub empty : caches_of p ≡ no_caches

append-All :
    {A : Type 0} (P : A → Type 0) (xs : List A) (y : A) → All P xs → P y → All P (xs ++ y ∷ [])
append-All P [] y h p = (p, tt)
append-All P (x ∷ xs) y h p = (h.0, append-All P xs y h.1 p)

build_each-IsFresh :
    {A : Type 0} (make : A → Result BuildError Provider) (cfgs : List A) (built ps : List Provider)
    → ((a : A) (p : Provider) → make a ≡ ok p → caches_of p ≡ no_caches)
    → All IsFresh built
    → build_each make cfgs built ≡ ok ps
    → All IsFresh ps
unfolding build_each
build_each-IsFresh make [] built ps makes fresh h = let e : built ≡ ps = cc in rw⁻¹ e fresh
build_each-IsFresh make (cfg ∷ cfgs) built ps makes fresh h =
    let b = bound (make cfg) (λ p. build_each make cfgs (built ++ p ∷ [])) ps h in
    build_each-IsFresh make cfgs (built ++ b.value ∷ []) ps makes
      (append-All IsFresh built b.value fresh (record { empty = makes cfg b.value b.first })) b.rest

made-caches :
    (cfg : ProxmoxConfig) (u : Option Proxmox.Url) (p : Provider)
    → made (λ m. proxmox m.0 m.1) proxmox_failed (provider_at cfg u) ≡ ok p
    → caches_of p ≡ no_caches
made-caches cfg none p h = cc
made-caches cfg (some u) p h = ground arith

module _ (parse_url : String → Option Proxmox.Url) (lib : Library) (keys : Keys) where
  proxmox-caches :
      (cfg : ProxmoxConfig) (p : Provider)
      → make_proxmox parse_url cfg ≡ ok p
      → caches_of p ≡ no_caches
  unfolding new_provider
  proxmox-caches cfg p h = made-caches cfg (parse_url (trim_slashes cfg.endpoint)) p h

  docker-caches :
      (cfg : DockerConfig) (p : Provider) → make_docker lib cfg ≡ ok p → caches_of p ≡ no_caches
  docker-caches cfg p h = made_view caches_of _ _ _ _ p (λ a. refl) h

  linux-caches :
      (make : LinuxSshConfig → Linux.Provider) (cfg : LinuxSshConfig) (p : Provider)
      → make_linux keys make cfg ≡ ok p
      → caches_of p ≡ no_caches
  linux-caches make cfg p h = made_view caches_of _ _ _ _ p (λ a. refl) h

  windows-caches :
      (make : WindowsSshConfig → Windows.Provider) (cfg : WindowsSshConfig) (p : Provider)
      → make_windows keys make cfg ≡ ok p
      → caches_of p ≡ no_caches
  windows-caches make cfg p h = made_view caches_of _ _ _ _ p (λ a. refl) h

  pub build_providers-IsFresh :
      (cfg : ProvidersConfig) (ps : List Provider)
      → build_providers parse_url lib keys cfg ≡ ok ps
      → All IsFresh ps
  unfolding build_providers
  build_providers-IsFresh cfg ps h =
      let b1 = bound (build_each (make_proxmox parse_url) cfg.proxmox []) _ ps h in
      let b2 = bound (build_each (make_docker lib) cfg.docker b1.value) _ ps b1.rest in
      let b3 =
        bound (build_each (make_linux keys Linux.new_agentless) cfg.agentless_ssh b2.value) _ ps
          b2.rest in
      let b4 =
        bound (build_each (make_linux keys Linux.new_slurm) cfg.slurm b3.value) _ ps b3.rest in
      let b5 =
        bound (build_each (make_windows keys Windows.new_wsl) cfg.windows_wsl b4.value) _ ps
          b4.rest in
      let b6 =
        bound (build_each (make_linux keys Linux.new_linux) cfg.linux_ssh b5.value) _ ps b5.rest in
      let f1 =
        build_each-IsFresh (make_proxmox parse_url) cfg.proxmox [] _ proxmox-caches tt b1.first in
      let f2 = build_each-IsFresh (make_docker lib) cfg.docker _ _ docker-caches f1 b2.first in
      let f3 =
        build_each-IsFresh (make_linux keys Linux.new_agentless) cfg.agentless_ssh _ _
          (linux-caches Linux.new_agentless) f2 b3.first in
      let f4 =
        build_each-IsFresh (make_linux keys Linux.new_slurm) cfg.slurm _ _
          (linux-caches Linux.new_slurm) f3 b4.first in
      let f5 =
        build_each-IsFresh (make_windows keys Windows.new_wsl) cfg.windows_wsl _ _
          (windows-caches Windows.new_wsl) f4 b5.first in
      let f6 =
        build_each-IsFresh (make_linux keys Linux.new_linux) cfg.linux_ssh _ _
          (linux-caches Linux.new_linux) f5 b6.first in
      build_each-IsFresh (make_windows keys Windows.new_windows) cfg.windows_ssh b6.value ps
        (windows-caches Windows.new_windows) f6 b6.rest
