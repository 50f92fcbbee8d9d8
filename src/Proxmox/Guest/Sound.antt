-- ===== src/Proxmox/Guest/Sound.antt =====
-- What the guest agent's numbers make of a snapshot, and how long they are kept.
use komari_bridge.Base.{
  ltb, if◌then◌else◌, ◌>>=◌, ℕ, ◌+◌, ◌≡◌, refl, String, Bool, none, some, arith, Result, ok, err,
  ◌==◌,
}
use komari_bridge.Base.Int.{ℤ, pos, ◌≤ℤ◌, ◌<ℤ◌, ◌-ℤ◌}
use komari_bridge.Base.Dict.{Dict, lookup-insert}
use komari_bridge.Base.Time.{minute, is_older_iff}
use komari_bridge.Base.Text.{split}
use komari_bridge.Model.{Snapshot}
use komari_bridge.Bridge.Validate.Sound.{IsUsage}
use komari_bridge.Proxmox.Memory.{
  GuestMemory, MemInfo, MemoryError, no_info, used_memory, check_info, parse_lines,
  parse_guest_memory,
}
use komari_bridge.Proxmox.Guest.{apply_guest_memory, store_guest, load_guest}

used_memory-IsUsage :
    (total available : ℤ) → pos 0 ≤ℤ total → IsUsage total (used_memory total available)
unfolding used_memory ◌-ℤ◌
used_memory-IsUsage total available h = ground arith

check_info-sized : (m : MemInfo) (g : GuestMemory) → check_info m ≡ ok g → pos 0 <ℤ g.memory_total
unfolding check_info
check_info-sized m g h = ground arith

check_parsed-sized :
    (r : Result MemoryError MemInfo) (g : GuestMemory)
    → (r >>= check_info) ≡ ok g
    → pos 0 <ℤ g.memory_total
check_parsed-sized (ok m) g h = check_info-sized m g h
check_parsed-sized (err e) g h = cc

-- Guest memory that was parsed from the agent's output gives the snapshot a positive total, equal in
-- its basic info and its report, and a use within it; swap gets a use within its total too, if the
-- total is not negative, which a number of kilobytes beyond 2^53 can make it.
pub apply_guest_memory-IsUsage :
    {F : Type 0} (contents : String) (m : GuestMemory) (cached : Bool) (s : Snapshot F)
    → parse_guest_memory contents ≡ ok m
    → pos 0 ≤ℤ m.swap_total
    → let t = apply_guest_memory m cached s in
      (pos 0 <ℤ t.basic_info.memory_total)
      × (t.basic_info.memory_total ≡ t.report.ram.total)
      × IsUsage t.report.ram.total t.report.ram.used
      × (t.basic_info.swap_total ≡ t.report.swap.total)
      × IsUsage t.report.swap.total t.report.swap.used
unfolding apply_guest_memory parse_guest_memory
apply_guest_memory-IsUsage contents m cached s parsed swap =
    let sized : pos 0 <ℤ m.memory_total =
      check_parsed-sized (parse_lines (split b'\n' contents) no_info) m parsed in
    (
      sized,
      refl,
      used_memory-IsUsage m.memory_total m.memory_available (omega arith),
      refl,
      used_memory-IsUsage m.swap_total m.swap_free swap,
    )

-- What was stored under a key is loaded under it for a minute and no longer, and the other keys load
-- what they loaded before.
pub load_guest-store_guest :
    {A : Type 0} (now later : ℕ) (key other : String) (a : A) (cache : Dict (A × ℕ))
    → load_guest later other (store_guest now key a cache) ≡ (
        if key == other
        then (if ltb (now + minute) later then none else some a)
        else load_guest later other cache)
unfolding load_guest store_guest
load_guest-store_guest now later key other a cache =
    ground
      (arith, lookup-insert key other (a, now) cache, is_older_iff later now minute (omega arith))
