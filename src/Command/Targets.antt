-- ===== src/Command/Targets.antt =====
-- The resources that the built providers own the metrics of, and the configuration's check of them.
use komari_bridge.Base.{
  ◌≡◌, refl, String, Bool-cases, inl, inr, Option, List, [], ◌∷◌, ◌++◌, map, Result, ok,
  if◌then◌else◌,
}
use mathlib.Core.List.{append_assoc, append-nil, map-append}
use komari_bridge.Config.{
  LinuxSshConfig, WindowsSshConfig, ProvidersConfig, ResourceIdentity, is_empty,
}
use komari_bridge.Config.Checks.{SshPath, agentless_ssh, linux_ssh, windows_ssh}
use komari_bridge.Config.Authorities.{
  Authority, own_if, linux_authorities, windows_authorities, authorities,
}
use komari_bridge.Model.{Identity}
use komari_bridge.Linux.Provider.{identity_of}
use komari_bridge.Linux.Provider as Linux
use komari_bridge.Windows.Provider as Windows
use komari_bridge.Proxmox.Provider as Proxmox
use komari_bridge.Docker.Client.{Library}
use komari_bridge.Ssh.Auth.{Keys}
use komari_bridge.Command.{
  Provider, proxmox, docker, linux, windows, BuildError, make_proxmox, make_docker, make_linux,
  make_windows, build_each, build_providers,
}
use komari_bridge.Command.Sources.{bound, made_view}

-- The targets of a provider; a Proxmox or a Docker provider is no `MetricAuthority`.
abbrev pub targets_of : Provider → List Identity
targets_of (proxmox _ _) = []
targets_of (docker _ _) = []
targets_of (linux p _) = Linux.metric_targets p
targets_of (windows p _) = Windows.metric_targets p

unfoldable pub all_targets : List Provider → List Identity
all_targets [] = []
all_targets (p ∷ ps) = targets_of p ++ all_targets ps

all_targets-append :
    (ps qs : List Provider) → all_targets (ps ++ qs) ≡ all_targets ps ++ all_targets qs
unfolding all_targets
all_targets-append [] qs = refl
all_targets-append (p ∷ ps) qs =
    rw (all_targets-append ps qs, append_assoc (targets_of p) (all_targets ps) (all_targets qs))
      refl

all_targets-one : (p : Provider) → all_targets (p ∷ []) ≡ targets_of p
unfolding all_targets
all_targets-one p = append-nil (targets_of p)

abbrev each : {A : Type 0} → (A → List Identity) → List A → List Identity
each owned [] = []
each owned (cfg ∷ cfgs) = owned cfg ++ each owned cfgs

build_each_targets :
    {A : Type 0} (make : A → Result BuildError Provider) (owned : A → List Identity) (cfgs : List A)
    (built ps : List Provider)
    → ((a : A) (p : Provider) → make a ≡ ok p → targets_of p ≡ owned a)
    → build_each make cfgs built ≡ ok ps
    → all_targets ps ≡ all_targets built ++ each owned cfgs
unfolding build_each
build_each_targets make owned [] built ps owns h =
    let e : built ≡ ps = cc in rw⁻¹ e (rw (append-nil (all_targets built)) refl)
build_each_targets make owned (cfg ∷ cfgs) built ps owns h =
    let b = bound (make cfg) (λ p. build_each make cfgs (built ++ p ∷ [])) ps h in
    rw
      (
        build_each_targets make owned cfgs (built ++ b.value ∷ []) ps owns b.rest,
        all_targets-append built (b.value ∷ []),
        all_targets-one b.value,
        owns cfg b.value b.first,
        append_assoc (all_targets built) (owned cfg) (each owned cfgs),
      )
      refl

abbrev nothing : {A : Type 0} → A → List Identity
nothing _ = []

each-nothing : {A : Type 0} (cfgs : List A) → each nothing cfgs ≡ []
each-nothing [] = refl
each-nothing (cfg ∷ cfgs) = each-nothing cfgs

abbrev attached_to : ResourceIdentity → List Identity
attached_to i = if is_empty i.source_type then [] else identity_of i ∷ []

abbrev linux_target : LinuxSshConfig → List Identity
linux_target cfg = attached_to cfg.attach_to

abbrev windows_target : WindowsSshConfig → List Identity
windows_target cfg = attached_to cfg.attach_to

abbrev pub owned_by : List Authority → List Identity
owned_by owners = map (λ (a : Authority). identity_of a.to) owners

owned_by-own_if :
    (a : Authority) (rest : List Authority)
    → owned_by (own_if a rest) ≡ attached_to a.to ++ owned_by rest
owned_by-own_if a rest = elim (Bool-cases (is_empty a.to.source_type)) [
  | inl empty ↦ rw empty refl
  | inr given ↦ rw given refl
]

each-linux :
    (path : SshPath) (cfgs : List LinuxSshConfig)
    → each linux_target cfgs ≡ owned_by (linux_authorities path cfgs)
unfolding linux_authorities
each-linux path [] = refl
each-linux path (cfg ∷ cfgs) =
    rw
      (
        owned_by-own_if (record { path = path; id = cfg.id; to = cfg.attach_to })
            (linux_authorities path cfgs),
        each-linux path cfgs,
      )
      refl

each-windows :
    (cfgs : List WindowsSshConfig) → each windows_target cfgs ≡ owned_by (windows_authorities cfgs)
unfolding windows_authorities
each-windows [] = refl
each-windows (cfg ∷ cfgs) =
    rw
      (
        owned_by-own_if (record { path = windows_ssh; id = cfg.id; to = cfg.attach_to })
            (windows_authorities cfgs),
        each-windows cfgs,
      )
      refl

module _ (parse_url : String → Option Proxmox.Url) (lib : Library) (keys : Keys) where
  -- The resources whose metrics the built providers own are those that the configuration's check
  -- compares, in the same order: no provider owns a resource that the check does not see, and none
  -- that it sees is not owned.
  pub build_providers_targets :
      (cfg : ProvidersConfig) (ps : List Provider)
      → build_providers parse_url lib keys cfg ≡ ok ps
      → all_targets ps ≡ owned_by (authorities cfg)
  unfolding build_providers authorities all_targets Linux.metric_targets Windows.metric_targets
  build_providers_targets cfg ps h =
      let b1 = bound (build_each (make_proxmox parse_url) cfg.proxmox []) _ ps h in
      let b2 = bound (build_each (make_docker lib) cfg.docker b1.value) _ ps b1.rest in
      let b3 =
        bound (build_each (make_linux keys Linux.new_agentless) cfg.agentless_ssh b2.value) _ ps
          b2.rest in
      let b4 =
        bound (build_each (make_linux keys Linux.new_slurm) cfg.slurm b3.value) _ ps b3.rest in
      let b5 =
        bound (build_each (make_windows keys Windows.new_wsl) cfg.windows_wsl b4.value) _ ps
          b4.rest in
      let b6 =
        bound (build_each (make_linux keys Linux.new_linux) cfg.linux_ssh b5.value) _ ps b5.rest in
      let agentless = linux_authorities agentless_ssh cfg.agentless_ssh in
      let hosts = linux_authorities linux_ssh cfg.linux_ssh in
      let desks = windows_authorities cfg.windows_ssh in
      rw
        (
          build_each_targets (make_windows keys Windows.new_windows) windows_target cfg.windows_ssh
              b6.value ps (λ a p e. made_view targets_of _ _ _ _ p (λ m. refl) e) b6.rest,
          build_each_targets (make_linux keys Linux.new_linux) linux_target cfg.linux_ssh b5.value
              b6.value (λ a p e. made_view targets_of _ _ _ _ p (λ m. refl) e) b6.first,
          build_each_targets (make_windows keys Windows.new_wsl) nothing cfg.windows_wsl b4.value
              b5.value (λ a p e. made_view targets_of _ _ _ _ p (λ m. refl) e) b5.first,
          build_each_targets (make_linux keys Linux.new_slurm) nothing cfg.slurm b3.value b4.value
              (λ a p e. made_view targets_of _ _ _ _ p (λ m. refl) e) b4.first,
          build_each_targets (make_linux keys Linux.new_agentless) linux_target cfg.agentless_ssh
              b2.value b3.value (λ a p e. made_view targets_of _ _ _ _ p (λ m. refl) e) b3.first,
          build_each_targets (make_docker lib) nothing cfg.docker b1.value b2.value
              (λ a p e. made_view targets_of _ _ _ _ p (λ m. refl) e) b2.first,
          build_each_targets (make_proxmox parse_url) nothing cfg.proxmox [] b1.value
              (λ a p e. made_view targets_of _ _ _ _ p (λ m. refl) e) b1.first,
        )
        (rw
          (
            each-nothing cfg.proxmox,
            each-nothing cfg.docker,
            each-nothing cfg.slurm,
            each-nothing cfg.windows_wsl,
            append-nil (each linux_target cfg.agentless_ssh),
            append-nil (each linux_target cfg.agentless_ssh),
            each-linux agentless_ssh cfg.agentless_ssh,
            each-linux linux_ssh cfg.linux_ssh,
            each-windows cfg.windows_ssh,
            map-append (λ (a : Authority). identity_of a.to) (agentless ++ hosts) desks,
            map-append (λ (a : Authority). identity_of a.to) agentless hosts,
          )
          refl)
