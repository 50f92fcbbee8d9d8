-- ===== src/Proxmox/Enrich.antt =====
-- providers/proxmox/proxmox.go: what the API says of a node and the guest agent of a guest's system,
-- and what it makes of a snapshot.
use komari_bridge.Base.{
  String, ◌<>◌, ◌==◌, Bool, not, ◌&&◌, Option, none, some, [], ◌∷◌, if◌then◌else◌,
}
use komari_bridge.Base.Int.{ℤ, pos, ltb_ℤ}
use komari_bridge.Base.Text.{trim_space, is_blank, first_non_empty, itoa}
use komari_bridge.Model.{Snapshot}

-- `nodeStatusEnrichment`
pub record NodeStatus : Type 0 where
  pub cpu_name : String
  pub cpu_cores : ℤ
  pub cpu_physical_cores : ℤ
  pub arch : String
  pub os : String
  pub kernel_version : String
  pub version : String

-- `guestOSEnrichment`
pub record GuestOs : Type 0 where
  pub os : String
  pub arch : String
  pub kernel_version : String

pub record NodeStatusResponse : Type 0 where
  pub model : String
  pub cpus : ℤ
  pub cores : ℤ
  pub sockets : ℤ
  pub pve_version : String
  pub kernel : String

-- The fields of the response that are read.
pub record GuestOsResponse : Type 0 where
  pub name : String
  pub pretty_name : String
  pub kernel_release : String
  pub machine : String

unfoldable pub cpu_display_name : String → ℤ → String
unfolding trim_space itoa
cpu_display_name model sockets =
    let trimmed = trim_space model in
    if not (trimmed == "") && ltb_ℤ (pos 1) sockets
    then trimmed <> " × " <> itoa sockets
    else trimmed

unfoldable pub valid_node_status : NodeStatusResponse → Bool
unfolding is_blank
valid_node_status r =
    not (is_blank r.model)
    && ltb_ℤ (pos 0) r.cpus
    && ltb_ℤ (pos 0) r.cores
    && not (r.kernel == "")
    && not (r.pve_version == "")

unfoldable pub node_status_of : NodeStatusResponse → NodeStatus
unfolding cpu_display_name
node_status_of r = record {
  cpu_name = cpu_display_name r.model r.sockets;
  cpu_cores = r.cpus;
  cpu_physical_cores = r.cores;
  arch = "x86_64";
  os = "Proxmox VE";
  kernel_version = r.kernel;
  version = r.pve_version;
}

unfoldable pub valid_guest_os : GuestOsResponse → Bool
unfolding is_blank first_non_empty
valid_guest_os r =
    not (is_blank (first_non_empty (r.pretty_name ∷ r.name ∷ [])))
    && not (is_blank r.machine)
    && not (is_blank r.kernel_release)

unfoldable pub guest_os_of : GuestOsResponse → GuestOs
unfolding first_non_empty
guest_os_of r = record {
  os = first_non_empty (r.pretty_name ∷ r.name ∷ []);
  arch = r.machine;
  kernel_version = r.kernel_release;
}

-- A usable answer: one that came and that the check accepts.
abbrev pub usable_status : Option NodeStatusResponse → Option NodeStatus
usable_status none = none
usable_status (some r) = if valid_node_status r then some (node_status_of r) else none

abbrev pub usable_guest_os : Option GuestOsResponse → Option GuestOs
usable_guest_os none = none
usable_guest_os (some r) = if valid_guest_os r then some (guest_os_of r) else none

module _ {F : Type 0} where
  unfoldable pub apply_node_status : NodeStatus → Snapshot F → Snapshot F
  apply_node_status e s = record s {
    basic_info = record s.basic_info {
      cpu_name = e.cpu_name;
      cpu_cores = e.cpu_cores;
      cpu_physical_cores = e.cpu_physical_cores;
      arch = e.arch;
      os = e.os;
      kernel_version = e.kernel_version;
      version = e.version;
    };
  }

  unfoldable pub apply_guest_os : GuestOs → Snapshot F → Snapshot F
  apply_guest_os e s = record s {
    basic_info = record s.basic_info {
      os = e.os;
      arch = e.arch;
      kernel_version = e.kernel_version;
    };
  }
