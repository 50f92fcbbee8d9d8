-- ===== src/Proxmox/Steps.antt =====
-- providers/proxmox/proxmox.go: the steps of `Collect` that enrich a snapshot, each with what it stores.
use komari_bridge.Base.{
  ℕ, String, ◌==◌, true, false, Option, none, some, if◌then◌else◌, Result, ok, err,
}
use komari_bridge.Base.Int.{pos}
use komari_bridge.Base.Dict.{lookup, insert}
use komari_bridge.Model.{Snapshot}
use komari_bridge.Config.{ResourceOverride}
use komari_bridge.Proxmox.Memory.{GuestMemory, MemoryError}
use komari_bridge.Proxmox.Disk.{GuestDisk}
use komari_bridge.Proxmox.Guest.{apply_guest_memory, apply_guest_disk, store_guest, load_guest}
use komari_bridge.Proxmox.Enrich.{NodeStatus, GuestOs, apply_node_status, apply_guest_os}
use komari_bridge.Proxmox.Provider.{Caches}

abbrev or_else : String → String → String
or_else value default = if value == "" then default else value

abbrev pub Turn : Type 0 → Type 0
Turn F = Snapshot F × Caches

module _ {F : Type 0} where
  abbrev tagged : String → String → Snapshot F → Snapshot F
  tagged key value s = record s { tags = insert key value s.tags }

  abbrev pub known_node : Option NodeStatus → Snapshot F → Snapshot F
  known_node none s = record s { online = false }
  known_node (some e) s = apply_node_status e s

  -- Without a status, now or before, a node is not shown online.
  unfoldable pub enrich_node : Option NodeStatus → String → Turn F → Turn F
  unfolding apply_node_status insert lookup
  enrich_node none node (s, c) = (known_node (lookup node c.node_status) s, c)
  enrich_node (some e) node (s, c) =
      (apply_node_status e s, record c { node_status = insert node e c.node_status })

  abbrev pub known_guest_os : Option GuestOs → Snapshot F → Snapshot F
  known_guest_os none s = s
  known_guest_os (some e) s = apply_guest_os e s

  unfoldable pub enrich_guest_os : Option GuestOs → String → Turn F → Turn F
  unfolding apply_guest_os insert lookup
  enrich_guest_os none id (s, c) = (known_guest_os (lookup id c.guest_os) s, c)
  enrich_guest_os (some e) id (s, c) =
      (apply_guest_os e s, record c { guest_os = insert id e c.guest_os })

  abbrev pub known_disk : Option GuestDisk → Snapshot F → Snapshot F
  known_disk none s = s
  known_disk (some d) s = tagged "disk_source" "qga_get_fsinfo_cached" (apply_guest_disk d true s)

  unfoldable pub enrich_guest_disk : Option GuestDisk → ℕ → String → Turn F → Turn F
  unfolding apply_guest_disk load_guest store_guest insert
  enrich_guest_disk none at id (s, c) = (known_disk (load_guest at id c.guest_disk) s, c)
  enrich_guest_disk (some d) at id (s, c) = (
    tagged "disk_source" "qga_get_fsinfo" (apply_guest_disk d false s),
    record c { guest_disk = store_guest at id d c.guest_disk },
  )

  -- No memory that the contract of `guest_memory: qga` allows is known.
  abbrev without_memory : Snapshot F → Snapshot F
  without_memory s = tagged "memory_source" "qga_unavailable" (record s {
    online = false;
    basic_info = record s.basic_info { memory_total = pos 0; swap_total = pos 0 };
    report = record s.report {
      ram = record { total = pos 0; used = pos 0 };
      swap = record { total = pos 0; used = pos 0 };
    };
  })

  abbrev pub known_memory : Option GuestMemory → Snapshot F → Snapshot F
  known_memory none s = without_memory s
  known_memory (some m) s =
      tagged "memory_source" "qga_proc_meminfo_cached" (apply_guest_memory m true s)

  unfoldable pub enrich_guest_memory : Result MemoryError GuestMemory → ℕ → String → Turn F → Turn F
  unfolding apply_guest_memory load_guest store_guest insert
  enrich_guest_memory (err _) at id (s, c) = (known_memory (load_guest at id c.guest_memory) s, c)
  enrich_guest_memory (ok m) at id (s, c) = (
    tagged "memory_source" "qga_proc_meminfo" (apply_guest_memory m false s),
    record c { guest_memory = store_guest at id m c.guest_memory },
  )

  unfoldable pub override_names : ResourceOverride → Snapshot F → Snapshot F
  override_names o s = record s {
    name = or_else o.name s.name;
    basic_info = record s.basic_info {
      os = or_else o.os s.basic_info.os;
      arch = or_else o.arch s.basic_info.arch;
    };
  }
