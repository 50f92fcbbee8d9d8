-- ===== src/Config/Validate.antt =====
-- internal/config/config.go: `validate`, and what a configuration that passes it promises.
use komari_bridge.Base.{
  ℕ, ◌+◌, ◌≡◌, refl, ◌↔◌, ◌⊎◌, String, Bool, true, false, ◌||◌, List, [], ◌∷◌, All, arith, ok,
  fail_if, ◌>>◌, >>-iff,
}
use komari_bridge.Base.Int.{ℤ, pos, leb_ℤ, ◌<ℤ◌}
use komari_bridge.Base.Dict.{Dict}
use komari_bridge.Base.Text.{is_blank, equal_fold}
use komari_bridge.Config.{
  Config, ResourceIdentity, ResourceOverride, ProxmoxConfig, DockerConfig, LinuxSshConfig,
  WindowsSshConfig, is_empty,
}
use komari_bridge.Config.Checks.{
  ConfigError, not_for_path, SshPath, SshFields, attached, some_empty, linux_fields, windows_fields,
  linux_misplaced, windows_misplaced, validate_ssh, validate_resources, agentless_ssh, slurm,
  linux_ssh, windows_wsl, windows_ssh, no_komari, interval_too_long, Checked, validate_linux,
  validate_windows, validate_proxmox, validate_docker,
}
use komari_bridge.Config.Authorities.{
  AreUnique, authorities, validate_unique_metric_authorities,
  validate_unique_metric_authorities_iff,
}

unfoldable pub validate : Config → Checked
unfolding validate_linux validate_windows validate_proxmox validate_docker
    validate_unique_metric_authorities
validate cfg = do
  fail_if (is_empty cfg.komari.endpoint || is_empty cfg.komari.auto_discovery_key) no_komari
  fail_if (leb_ℤ (pos 35_000_000_000) cfg.scheduler.interval) interval_too_long
  validate_proxmox 0 cfg.providers.proxmox
  validate_docker 0 cfg.providers.docker
  validate_linux agentless_ssh 0 cfg.providers.agentless_ssh
  validate_linux slurm 0 cfg.providers.slurm
  validate_linux linux_ssh 0 cfg.providers.linux_ssh
  validate_windows windows_wsl 0 cfg.providers.windows_wsl
  validate_windows windows_ssh 0 cfg.providers.windows_ssh
  validate_unique_metric_authorities cfg.providers

-- An identity that is left out, or one that is complete.
abbrev pub IsTarget : ResourceIdentity → Type 0
IsTarget i = (attached i ≡ false) ⊎ (some_empty i ≡ false)

pub record IsSsh (f : SshFields) : Type 0 where
  pub id : is_empty f.id ≡ false
  pub address : is_empty f.address ≡ false
  pub user : is_empty f.user ≡ false
  pub credential :
      (is_empty f.private_key_path ≡ false)
      ⊎ ((is_empty f.private_key ≡ false) ⊎ (is_empty f.password ≡ false))
  pub host_key : (f.insecure ≡ true) ⊎ (is_empty f.host_key ≡ false)
  pub target : IsTarget f.attach

abbrev pub IsLinux : SshPath → LinuxSshConfig → Type 0
IsLinux path p = IsSsh (linux_fields p) × (linux_misplaced path p ≡ false)

abbrev pub IsWindows : SshPath → WindowsSshConfig → Type 0
IsWindows path p = IsSsh (windows_fields p) × (windows_misplaced path p ≡ false)

abbrev pub IsOverride : String × ResourceOverride → Type 0
IsOverride (id, r) = (is_empty r.guest_memory ≡ true) ⊎ (equal_fold r.guest_memory "qga" ≡ true)

pub record IsProxmox (p : ProxmoxConfig) : Type 0 where
  pub id : is_empty p.id ≡ false
  pub endpoint : is_empty p.endpoint ≡ false
  pub token_id : is_empty p.token_id ≡ false
  pub token_secret : is_empty p.token_secret ≡ false
  pub resources : All IsOverride p.resources

pub record IsDocker (d : DockerConfig) : Type 0 where
  pub id : is_blank d.id ≡ false
  pub endpoint : is_blank d.endpoint ≡ false
  pub target : IsTarget d.attach_to
  pub tls_pair : is_empty d.tls_cert_file ≡ is_empty d.tls_key_file

pub record IsConfig (cfg : Config) : Type 0 where
  pub endpoint : is_empty cfg.komari.endpoint ≡ false
  pub auto_discovery_key : is_empty cfg.komari.auto_discovery_key ≡ false
  pub interval : cfg.scheduler.interval <ℤ pos 35_000_000_000
  pub proxmox : All IsProxmox cfg.providers.proxmox
  pub docker : All IsDocker cfg.providers.docker
  pub agentless : All (IsLinux agentless_ssh) cfg.providers.agentless_ssh
  pub slurm : All (IsLinux slurm) cfg.providers.slurm
  pub linux : All (IsLinux linux_ssh) cfg.providers.linux_ssh
  pub wsl : All (IsWindows windows_wsl) cfg.providers.windows_wsl
  pub windows : All (IsWindows windows_ssh) cfg.providers.windows_ssh
  pub unique : AreUnique (authorities cfg.providers)

validate_ssh_iff :
    (path : SshPath) (i : ℕ) (f : SshFields) → (validate_ssh path i f ≡ ok tt) ↔ IsSsh f
unfolding validate_ssh
validate_ssh_iff path i f = ground arith

passes : (b : Bool) (e : ConfigError) → (fail_if b e ≡ ok tt) ↔ (b ≡ false)
passes b e = ground arith

validate_linux_iff :
    (path : SshPath) (i : ℕ) (ps : List LinuxSshConfig)
    → (validate_linux path i ps ≡ ok tt) ↔ All (IsLinux path) ps
unfolding validate_linux
validate_linux_iff path i [] = (λ _. tt, λ _. refl)
validate_linux_iff path i (p ∷ ps) =
    let parts = >>-iff (validate_ssh_iff path i (linux_fields p)) (
      >>-iff (passes (linux_misplaced path p) (not_for_path path i))
        (validate_linux_iff path (i + 1) ps)) in
    (λ h. let q = parts.0 h in ((q.0, q.1.0), q.1.1), λ r. parts.1 (r.0.0, (r.0.1, r.1)))

validate_windows_iff :
    (path : SshPath) (i : ℕ) (ps : List WindowsSshConfig)
    → (validate_windows path i ps ≡ ok tt) ↔ All (IsWindows path) ps
unfolding validate_windows
validate_windows_iff path i [] = (λ _. tt, λ _. refl)
validate_windows_iff path i (p ∷ ps) =
    let parts = >>-iff (validate_ssh_iff path i (windows_fields p)) (
      >>-iff (passes (windows_misplaced path p) (not_for_path path i))
        (validate_windows_iff path (i + 1) ps)) in
    (λ h. let q = parts.0 h in ((q.0, q.1.0), q.1.1), λ r. parts.1 (r.0.0, (r.0.1, r.1)))

validate_resources_iff :
    (i : ℕ) (rs : Dict ResourceOverride) → (validate_resources i rs ≡ ok tt) ↔ All IsOverride rs
unfolding validate_resources
validate_resources_iff i [] = (λ _. tt, λ _. refl)
validate_resources_iff i ((id, r) ∷ rs) = ground (arith, validate_resources_iff i rs)

validate_proxmox_iff :
    (i : ℕ) (ps : List ProxmoxConfig) → (validate_proxmox i ps ≡ ok tt) ↔ All IsProxmox ps
unfolding validate_proxmox
validate_proxmox_iff i [] = (λ _. tt, λ _. refl)
validate_proxmox_iff i (p ∷ ps) =
    ground (arith, validate_resources_iff i p.resources, validate_proxmox_iff (i + 1) ps)

validate_docker_iff :
    (i : ℕ) (ds : List DockerConfig) → (validate_docker i ds ≡ ok tt) ↔ All IsDocker ds
unfolding validate_docker
validate_docker_iff i [] = (λ _. tt, λ _. refl)
validate_docker_iff i (d ∷ ds) = ground (arith, validate_docker_iff (i + 1) ds)

both_present :
    (a b : String)
    → (fail_if (is_empty a || is_empty b) no_komari ≡ ok tt)
      ↔ ((is_empty a ≡ false) × (is_empty b ≡ false))
both_present a b = ground arith

short :
    (d : ℤ)
    → (fail_if (leb_ℤ (pos 35_000_000_000) d) interval_too_long ≡ ok tt) ↔ (d <ℤ pos 35_000_000_000)
short d = ground arith

-- A configuration passes exactly when the server's endpoint and key are given, the interval is below
-- 35 seconds, each provider has its fields, every SSH provider has a credential and a host key, or
-- says that it ignores the host key, and no two providers own the metrics of a resource.
pub validate_iff : (cfg : Config) → (validate cfg ≡ ok tt) ↔ IsConfig cfg
unfolding validate
validate_iff cfg =
    let p = cfg.providers in
    let parts = >>-iff (both_present cfg.komari.endpoint cfg.komari.auto_discovery_key) (
      >>-iff (short cfg.scheduler.interval) (
        >>-iff (validate_proxmox_iff 0 p.proxmox) (
          >>-iff (validate_docker_iff 0 p.docker) (
            >>-iff (validate_linux_iff agentless_ssh 0 p.agentless_ssh) (
              >>-iff (validate_linux_iff slurm 0 p.slurm) (
                >>-iff (validate_linux_iff linux_ssh 0 p.linux_ssh) (
                  >>-iff (validate_windows_iff windows_wsl 0 p.windows_wsl) (
                    >>-iff (validate_windows_iff windows_ssh 0 p.windows_ssh)
                      (validate_unique_metric_authorities_iff p))))))))) in
    (
      λ h.
          let q = parts.0 h in
          record {
            endpoint = q.0.0;
            auto_discovery_key = q.0.1;
            interval = q.1.0;
            proxmox = q.1.1.0;
            docker = q.1.1.1.0;
            agentless = q.1.1.1.1.0;
            slurm = q.1.1.1.1.1.0;
            linux = q.1.1.1.1.1.1.0;
            wsl = q.1.1.1.1.1.1.1.0;
            windows = q.1.1.1.1.1.1.1.1.0;
            unique = q.1.1.1.1.1.1.1.1.1;
          },
      λ r. parts.1 (
        (r.endpoint, r.auto_discovery_key),
        (
          r.interval,
          (
            r.proxmox,
            (r.docker, (r.agentless, (r.slurm, (r.linux, (r.wsl, (r.windows, r.unique)))))),
          ),
        ),
      ),
    )
