-- ===== src/Proxmox/Guest.antt =====
-- providers/proxmox/proxmox.go: `applyGuestMemory`, `applyGuestDisk` and the caches of what the guest
-- agent said last.
pub mod Sound
use komari_bridge.Base.{ℕ, String, Bool, Option, none, some, if◌then◌else◌}
use komari_bridge.Base.Int.{ℤ}
use komari_bridge.Base.Dict.{Dict, lookup, insert}
use komari_bridge.Base.Time.{minute, is_older}
use komari_bridge.Model.{Snapshot}
use komari_bridge.Proxmox.Memory.{GuestMemory, used_memory}
use komari_bridge.Proxmox.Disk.{GuestDisk}

module _ {F : Type 0} where
  unfoldable pub apply_guest_memory : GuestMemory → Bool → Snapshot F → Snapshot F
  unfolding used_memory
  apply_guest_memory m cached s = record s {
    basic_info = record s.basic_info { memory_total = m.memory_total; swap_total = m.swap_total };
    report = record s.report {
      ram = record { total = m.memory_total; used = used_memory m.memory_total m.memory_available };
      swap = record { total = m.swap_total; used = used_memory m.swap_total m.swap_free };
      message =
          if cached
          then "Last known guest memory from /proc/meminfo via the QEMU Guest Agent; remaining metrics observed by Proxmox."
          else "Guest memory from /proc/meminfo via the QEMU Guest Agent; remaining metrics observed by Proxmox.";
    };
  }

  unfoldable pub apply_guest_disk : GuestDisk → Bool → Snapshot F → Snapshot F
  apply_guest_disk d cached s = record s {
    basic_info = record s.basic_info { disk_total = d.total };
    report = record s.report {
      disk = record { total = d.total; used = d.used };
      disks = d.mounts;
      message =
          if cached
          then "Last known guest filesystem usage from the QEMU Guest Agent; remaining metrics observed by Proxmox."
          else "Guest filesystem usage from the QEMU Guest Agent; remaining metrics observed by Proxmox.";
    };
  }

-- `cachedGuestMemory` and `cachedGuestDisk`, and the methods that store and load them.
module _ {A : Type 0} where
  unfoldable pub store_guest : ℕ → String → A → Dict (A × ℕ) → Dict (A × ℕ)
  unfolding insert
  store_guest now key a cache = insert key (a, now) cache

  abbrev pub if_fresh : ℕ → Option (A × ℕ) → Option A
  if_fresh now none = none
  if_fresh now (some (a, saved_at)) = if is_older now saved_at minute then none else some a

  unfoldable pub load_guest : ℕ → String → Dict (A × ℕ) → Option A
  unfolding lookup
  load_guest now key cache = if_fresh now (lookup key cache)
