-- ===== src/Config/Checks.antt =====
-- internal/config/config.go: `validateSSH` and the loops of `validate` over the providers.
use komari_bridge.Base.{
  ℕ, ◌+◌, String, Bool, true, false, not, ◌&&◌, ◌||◌, List, [], ◌∷◌, Result, ok, fail_if, ◌>>◌,
}
use komari_bridge.Base.Dict.{Dict}
use komari_bridge.Base.Text.{is_blank, equal_fold}
use komari_bridge.Config.{
  ResourceIdentity, ResourceOverride, ProxmoxConfig, DockerConfig, LinuxSshConfig, WindowsSshConfig,
  is_empty,
}

-- The keys of the lists of SSH providers.
pub data SshPath : Type 0 where
  agentless_ssh slurm linux_ssh windows_wsl windows_ssh : SshPath

pub data ConfigError : Type 0 where
  no_komari interval_too_long : ConfigError
  proxmox_incomplete : ℕ → ConfigError
  bad_guest_memory : ℕ → String → ConfigError
  docker_incomplete docker_attach_to docker_tls_pair : ℕ → ConfigError
  ssh_incomplete ssh_no_credential ssh_no_host_key ssh_attach_to not_for_path :
      SshPath → ℕ → ConfigError
  both_own : SshPath → String → SshPath → String → String → ConfigError

abbrev pub Checked : Type 0
Checked = Result ConfigError (Unit {0})

abbrev pub attached : ResourceIdentity → Bool
attached i =
    not (is_empty i.source_type) || not (is_empty i.source_id) || not (is_empty i.external_id)

abbrev pub some_empty : ResourceIdentity → Bool
some_empty i = is_empty i.source_type || is_empty i.source_id || is_empty i.external_id

-- The arguments of `validateSSH`.
pub record SshFields : Type 0 where
  pub id : String
  pub address : String
  pub user : String
  pub private_key_path : String
  pub private_key : String
  pub password : String
  pub host_key : String
  pub insecure : Bool
  pub attach : ResourceIdentity

unfoldable pub validate_ssh : SshPath → ℕ → SshFields → Checked
validate_ssh path index f = do
  fail_if (is_empty f.id || is_empty f.address || is_empty f.user) (ssh_incomplete path index)
  fail_if (is_empty f.private_key_path && is_empty f.private_key && is_empty f.password)
      (ssh_no_credential path index)
  fail_if (not f.insecure && is_empty f.host_key) (ssh_no_host_key path index)
  fail_if (attached f.attach && some_empty f.attach) (ssh_attach_to path index)

abbrev pub linux_fields : LinuxSshConfig → SshFields
linux_fields p = record {
  id = p.id;
  address = p.address;
  user = p.user;
  private_key_path = p.private_key_path;
  private_key = p.private_key;
  password = p.password;
  host_key = p.host_key;
  insecure = p.insecure_ignore_host_key;
  attach = p.attach_to;
}

abbrev pub windows_fields : WindowsSshConfig → SshFields
windows_fields p = record {
  id = p.id;
  address = p.address;
  user = p.user;
  private_key_path = p.private_key_path;
  private_key = p.private_key;
  password = p.password;
  host_key = p.host_key;
  insecure = p.insecure_ignore_host_key;
  attach = p.attach_to;
}

-- The options that do not belong under a path.
abbrev pub linux_misplaced : SshPath → LinuxSshConfig → Bool
linux_misplaced agentless_ssh p = p.enable_slurm
linux_misplaced slurm p = p.enable_nvidia || not (is_empty p.attach_to.source_type)
linux_misplaced _ p = false

abbrev pub windows_misplaced : SshPath → WindowsSshConfig → Bool
windows_misplaced windows_wsl p = p.enable_nvidia
windows_misplaced _ p = false

unfoldable pub validate_linux : SshPath → ℕ → List LinuxSshConfig → Checked
unfolding validate_ssh
validate_linux path i [] = ok tt
validate_linux path i (p ∷ ps) =
    let rest = validate_linux path (i + 1) ps in
    do
      validate_ssh path i (linux_fields p)
      fail_if (linux_misplaced path p) (not_for_path path i)
      rest

unfoldable pub validate_windows : SshPath → ℕ → List WindowsSshConfig → Checked
unfolding validate_ssh
validate_windows path i [] = ok tt
validate_windows path i (p ∷ ps) =
    let rest = validate_windows path (i + 1) ps in
    do
      validate_ssh path i (windows_fields p)
      fail_if (windows_misplaced path p) (not_for_path path i)
      rest

-- The loop over the overrides of a Proxmox provider, in the order of the range over the map.
unfoldable pub validate_resources : ℕ → Dict ResourceOverride → Checked
unfolding equal_fold
validate_resources i [] = ok tt
validate_resources i ((id, resource) ∷ resources) =
    let rest = validate_resources i resources in
    do
      fail_if (not (is_empty resource.guest_memory) && not (equal_fold resource.guest_memory "qga"))
          (bad_guest_memory i id)
      rest

unfoldable pub validate_proxmox : ℕ → List ProxmoxConfig → Checked
unfolding validate_resources
validate_proxmox i [] = ok tt
validate_proxmox i (p ∷ ps) =
    let rest = validate_proxmox (i + 1) ps in
    do
      fail_if
          (is_empty p.id || is_empty p.endpoint || is_empty p.token_id || is_empty p.token_secret)
          (proxmox_incomplete i)
      validate_resources i p.resources
      rest

abbrev differ : Bool → Bool → Bool
differ true b = not b
differ false b = b

unfoldable pub validate_docker : ℕ → List DockerConfig → Checked
unfolding is_blank
validate_docker i [] = ok tt
validate_docker i (d ∷ ds) =
    let rest = validate_docker (i + 1) ds in
    do
      fail_if (is_blank d.id || is_blank d.endpoint) (docker_incomplete i)
      fail_if (attached d.attach_to && some_empty d.attach_to) (docker_attach_to i)
      fail_if (differ (is_empty d.tls_cert_file) (is_empty d.tls_key_file)) (docker_tls_pair i)
      rest
