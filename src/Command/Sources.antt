-- ===== src/Command/Sources.antt =====
-- The sources of the providers that are built.
use komari_bridge.Base.{
  arith, none, some, ◌≡◌, refl, String, List, [], ◌∷◌, ◌++◌, map, Result, ok, err, ◌>>=◌, Option,
}
use mathlib.Core.List.{append_assoc, append-nil, map-append}
use komari_bridge.Config.{
  ProxmoxConfig, DockerConfig, LinuxSshConfig, WindowsSshConfig, ProvidersConfig,
}
use komari_bridge.Proxmox.Provider as Proxmox
use komari_bridge.Proxmox.Provider.{new_provider, provider_at}
use komari_bridge.Base.Text.{trim_slashes}
use komari_bridge.Docker.Client.{Library}
use komari_bridge.Ssh.Auth.{Keys}
use komari_bridge.Linux.Provider as Linux
use komari_bridge.Windows.Provider as Windows
use komari_bridge.Command.{
  linux, windows, proxmox, proxmox_failed, Provider, BuildError, source_of, made, make_proxmox,
  make_docker, make_linux, make_windows, build_each, build_providers,
}

-- A bind that gives a value had one to go on with.
pub record Bound {A B E : Type 0} (m : Result E A) (f : A → Result E B) (b : B) : Type 0 where
  pub value : A
  pub first : m ≡ ok value
  pub rest : f value ≡ ok b

pub bound :
    {A B E : Type 0} (m : Result E A) (f : A → Result E B) (b : B) → (m >>= f) ≡ ok b → Bound m f b
bound (ok a) f b h = record { value = a; first = refl; rest = h }
bound (err e) f b h = cc

-- What all values that a constructor can make look like, the one that it made looks like.
pub made_view :
    {A E B : Type 0} (view : Provider → B) (f : A → Provider) (fail : E → BuildError)
    (r : Result E A) (key : B) (p : Provider)
    → ((a : A) → view (f a) ≡ key)
    → made f fail r ≡ ok p
    → view p ≡ key
made_view view f fail (ok a) key p same h = let e : f a ≡ p = cc in rw⁻¹ e (same a)
made_view view f fail (err e) key p same h = cc

build_each_sources :
    {A : Type 0} (make : A → Result BuildError Provider) (key : A → String × String)
    (keyed : (a : A) (p : Provider) → make a ≡ ok p → source_of p ≡ key a) (cfgs : List A)
    (built ps : List Provider)
    → build_each make cfgs built ≡ ok ps
    → map source_of ps ≡ map source_of built ++ map key cfgs
unfolding build_each
build_each_sources make key keyed [] built ps h =
    let e : built ≡ ps = cc in rw⁻¹ e (rw (append-nil (map source_of built)) refl)
build_each_sources make key keyed (cfg ∷ cfgs) built ps h =
    let b = bound (make cfg) (λ p. build_each make cfgs (built ++ p ∷ [])) ps h in
    rw
      (
        build_each_sources make key keyed cfgs (built ++ b.value ∷ []) ps b.rest,
        map-append source_of built (b.value ∷ []),
        keyed cfg b.value b.first,
        append_assoc (map source_of built) (key cfg ∷ []) (map key cfgs),
      )
      refl

module _ (parse_url : String → Option Proxmox.Url) (lib : Library) (keys : Keys) where
  made_provider_sources :
      (cfg : ProxmoxConfig) (u : Option Proxmox.Url) (p : Provider)
      → made (λ m. proxmox m.0 m.1) proxmox_failed (provider_at cfg u) ≡ ok p
      → source_of p ≡ ("proxmox", cfg.id)
  made_provider_sources cfg none p h = cc
  made_provider_sources cfg (some u) p h = ground arith

  proxmox_sources :
      (cfg : ProxmoxConfig) (p : Provider)
      → make_proxmox parse_url cfg ≡ ok p
      → source_of p ≡ ("proxmox", cfg.id)
  unfolding new_provider
  proxmox_sources cfg p h = made_provider_sources cfg (parse_url (trim_slashes cfg.endpoint)) p h

  docker_sources :
      (cfg : DockerConfig) (p : Provider)
      → make_docker lib cfg ≡ ok p
      → source_of p ≡ ("docker", cfg.id)
  docker_sources cfg p h = made_view source_of _ _ _ _ p (λ a. refl) h

  linux_sources :
      (make : LinuxSshConfig → Linux.Provider) (source : String) (cfg : LinuxSshConfig)
      (p : Provider)
      → source_of (linux (make cfg) []) ≡ (source, cfg.id)
      → make_linux keys make cfg ≡ ok p
      → source_of p ≡ (source, cfg.id)
  linux_sources make source cfg p same h = made_view source_of _ _ _ _ p (λ a. same) h

  windows_sources :
      (make : WindowsSshConfig → Windows.Provider) (source : String) (cfg : WindowsSshConfig)
      (p : Provider)
      → source_of (windows (make cfg) []) ≡ (source, cfg.id)
      → make_windows keys make cfg ≡ ok p
      → source_of p ≡ (source, cfg.id)
  windows_sources make source cfg p same h = made_view source_of _ _ _ _ p (λ a. same) h

  -- The providers that are built are those of the configuration, each under its source type and id, in
  -- the order of the lists: Proxmox, Docker, agentless SSH, Slurm, WSL, Linux SSH and Windows SSH.
  pub build_providers_sources :
      (cfg : ProvidersConfig) (ps : List Provider)
      → build_providers parse_url lib keys cfg ≡ ok ps
      → map source_of ps
        ≡ map (λ (c : ProxmoxConfig). ("proxmox", c.id)) cfg.proxmox
          ++ map (λ (c : DockerConfig). ("docker", c.id)) cfg.docker
          ++ map (λ (c : LinuxSshConfig). ("agentless_ssh", c.id)) cfg.agentless_ssh
          ++ map (λ (c : LinuxSshConfig). ("slurm", c.id)) cfg.slurm
          ++ map (λ (c : WindowsSshConfig). ("windows_wsl", c.id)) cfg.windows_wsl
          ++ map (λ (c : LinuxSshConfig). ("linux_ssh", c.id)) cfg.linux_ssh
          ++ map (λ (c : WindowsSshConfig). ("windows_ssh", c.id)) cfg.windows_ssh
  unfolding build_providers
  build_providers_sources cfg ps h =
      let b1 = bound (build_each (make_proxmox parse_url) cfg.proxmox []) _ ps h in
      let b2 = bound (build_each (make_docker lib) cfg.docker b1.value) _ ps b1.rest in
      let b3 =
        bound (build_each (make_linux keys Linux.new_agentless) cfg.agentless_ssh b2.value) _ ps
          b2.rest in
      let b4 =
        bound (build_each (make_linux keys Linux.new_slurm) cfg.slurm b3.value) _ ps b3.rest in
      let b5 =
        bound (build_each (make_windows keys Windows.new_wsl) cfg.windows_wsl b4.value) _ ps
          b4.rest in
      let b6 =
        bound (build_each (make_linux keys Linux.new_linux) cfg.linux_ssh b5.value) _ ps b5.rest in
      rw
        (
          build_each_sources (make_windows keys Windows.new_windows) _
              (λ (c : WindowsSshConfig) (p : Provider).
                windows_sources Windows.new_windows "windows_ssh" c p refl)
              cfg.windows_ssh b6.value ps b6.rest,
          build_each_sources (make_linux keys Linux.new_linux) _
              (λ (c : LinuxSshConfig) (p : Provider).
                linux_sources Linux.new_linux "linux_ssh" c p refl)
              cfg.linux_ssh b5.value b6.value b6.first,
          build_each_sources (make_windows keys Windows.new_wsl) _
              (λ (c : WindowsSshConfig) (p : Provider).
                windows_sources Windows.new_wsl "windows_wsl" c p refl)
              cfg.windows_wsl b4.value b5.value b5.first,
          build_each_sources (make_linux keys Linux.new_slurm) _
              (λ (c : LinuxSshConfig) (p : Provider).
                linux_sources Linux.new_slurm "slurm" c p refl)
              cfg.slurm b3.value b4.value b4.first,
          build_each_sources (make_linux keys Linux.new_agentless) _
              (λ (c : LinuxSshConfig) (p : Provider).
                linux_sources Linux.new_agentless "agentless_ssh" c p refl)
              cfg.agentless_ssh b2.value b3.value b3.first,
          build_each_sources (make_docker lib) _ docker_sources cfg.docker b1.value b2.value
              b2.first,
          build_each_sources (make_proxmox parse_url) _ proxmox_sources cfg.proxmox [] b1.value
              b1.first,
        )
        refl
