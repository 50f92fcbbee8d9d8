-- ===== src/Proxmox/Collect/Contract.antt =====
-- What `guest_memory: qga` in the configuration promises of a guest, in one turn of the loop.
use komari_bridge.Base.{
  ◌≡◌, ◌≤◌, ◌+◌, refl, ◌⊎◌, inl, inr, String, Bool-cases, true, Option, none, some, Result, ok, err,
  false, ℕ, ◌&&◌, arith,
}
use komari_bridge.Base.Dict.{AllSome, AllEntries, lookup, lookup-AllEntries, insert-AllEntries}
use komari_bridge.Base.Time.{minute, is_older, is_older_iff}
use komari_bridge.Base.Text.{equal_fold}
use komari_bridge.Model.{Snapshot}
use komari_bridge.Config.{ResourceOverride}
use komari_bridge.Proxmox.Memory.{GuestMemory, MemoryError, used_memory, collect_guest_memory}
use komari_bridge.Proxmox.Guest.{apply_guest_memory, load_guest, store_guest, if_fresh}
use komari_bridge.Proxmox.Resource.{Resource, external_id}
use komari_bridge.Proxmox.Provider.{Caches}
use komari_bridge.Proxmox.Steps.{Turn, enrich_guest_memory, known_memory, override_names}
use komari_bridge.Proxmox.Collect.{Answers, is_running_guest, apply_override}

module _ {F : Type 0} where
  -- The snapshot's memory and swap are those that the agent told.
  pub record IsOfAgent (m : GuestMemory) (s : Snapshot F) : Type 0 where
    pub memory :
        s.report.ram
        ≡ record { total = m.memory_total; used = used_memory m.memory_total m.memory_available }
    pub swap :
        s.report.swap ≡ record { total = m.swap_total; used = used_memory m.swap_total m.swap_free }
    pub memory_total : s.basic_info.memory_total ≡ m.memory_total
    pub swap_total : s.basic_info.swap_total ≡ m.swap_total

-- `Told id (m, at)` is what there is to know of an answer of the guest's agent.
module _ (Told : String → GuestMemory × ℕ → Type 0) where
  abbrev pub IsKnown : Caches → Type 0
  IsKnown c = AllEntries Told c.guest_memory

  -- An answer that is at most a minute old.
  pub record IsRecent (id : String) (now : ℕ) (m : GuestMemory) : Type 0 where
    pub at : ℕ
    pub told : Told id (m, at)
    pub fresh : now ≤ at + minute

  if_fresh-IsRecent :
      (id : String) (now : ℕ) (o : Option (GuestMemory × ℕ))
      → AllSome (Told id) o
      → AllSome (IsRecent id now) (if_fresh now o)
  if_fresh-IsRecent id now none h = tt
  if_fresh-IsRecent id now (some (m, at)) h = elim (Bool-cases (is_older now at minute)) [
    | inl old ↦ rw old tt
    | inr young ↦ rw young (record {
      at = at;
      told = h;
      fresh = ground (arith, young, is_older_iff now at minute (omega arith));
    })
  ]

  load_guest-IsRecent :
      (id : String) (now : ℕ) (c : Caches)
      → IsKnown c
      → AllSome (IsRecent id now) (load_guest now id c.guest_memory)
  unfolding load_guest
  load_guest-IsRecent id now c known =
      if_fresh-IsRecent id now (lookup id c.guest_memory)
        (lookup-AllEntries Told id c.guest_memory known)

  module _ {F : Type 0} where
    -- The snapshot shows an answer that is at most a minute old.
    pub record IsTold (id : String) (now : ℕ) (s : Snapshot F) : Type 0 where
      pub memory : GuestMemory
      pub recent : IsRecent id now memory
      pub shown : IsOfAgent memory s

    abbrev pub IsExact : String → ℕ → Snapshot F → Type 0
    IsExact id now s = (s.online ≡ false) ⊎ IsTold id now s

    known_memory-IsExact :
        (id : String) (now : ℕ) (known : Option GuestMemory) (o : ResourceOverride) (s : Snapshot F)
        → AllSome (IsRecent id now) known
        → IsExact id now (override_names o (known_memory known s))
    unfolding override_names apply_guest_memory
    known_memory-IsExact id now none o s h = inl refl
    known_memory-IsExact id now (some m) o s h = inr (record {
      memory = m;
      recent = h;
      shown = record { memory = refl; swap = refl; memory_total = refl; swap_total = refl };
    })

    enrich_guest_memory-IsKnown :
        (r : Result MemoryError GuestMemory) (at : ℕ) (id : String) (t : Turn F)
        → ((m : GuestMemory) → r ≡ ok m → Told id (m, at))
        → IsKnown t.1
        → IsKnown (enrich_guest_memory r at id t).1
    unfolding enrich_guest_memory store_guest
    enrich_guest_memory-IsKnown (err e) at id (s, c) told known = known
    enrich_guest_memory-IsKnown (ok m) at id (s, c) told known =
        insert-AllEntries Told id (m, at) c.guest_memory (told m refl) known

    enrich_guest_memory-IsExact :
        (r : Result MemoryError GuestMemory) (at : ℕ) (id : String) (o : ResourceOverride)
        (t : Turn F)
        → ((m : GuestMemory) → r ≡ ok m → Told id (m, at))
        → IsKnown t.1
        → IsExact id at (override_names o (enrich_guest_memory r at id t).0)
    unfolding enrich_guest_memory override_names apply_guest_memory
    enrich_guest_memory-IsExact (err e) at id o (s, c) told known =
        known_memory-IsExact id at _ o s (load_guest-IsRecent id at c known)
    enrich_guest_memory-IsExact (ok m) at id o (s, c) told known = inr (record {
      memory = m;
      recent = record { at = at; told = told m refl; fresh = omega arith };
      shown = record { memory = refl; swap = refl; memory_total = refl; swap_total = refl };
    })

    pub apply_override-IsKnown :
        (api : Answers) (item : Resource F) (o : Option ResourceOverride) (t : Turn F)
        → ((m : GuestMemory)
            → collect_guest_memory (api.command item.node item.vmid) ≡ ok m
            → Told (external_id item) (m, api.memory_at))
        → IsKnown t.1
        → IsKnown (apply_override api item o t).1
    unfolding apply_override
    apply_override-IsKnown api item none t told known = known
    apply_override-IsKnown api item (some o) t told known =
        elim (Bool-cases (is_running_guest item && equal_fold o.guest_memory "qga")) [
          | inl asked ↦ rw asked (enrich_guest_memory-IsKnown _ api.memory_at _ t told known)
          | inr other ↦ rw other known
        ]

    pub apply_override-IsExact :
        (api : Answers) (item : Resource F) (o : ResourceOverride) (t : Turn F)
        → is_running_guest item ≡ true
        → equal_fold o.guest_memory "qga" ≡ true
        → ((m : GuestMemory)
            → collect_guest_memory (api.command item.node item.vmid) ≡ ok m
            → Told (external_id item) (m, api.memory_at))
        → IsKnown t.1
        → IsExact (external_id item) api.memory_at (apply_override api item (some o) t).0
    unfolding apply_override
    apply_override-IsExact api item o t runs asked told known =
        rw (runs, asked)
          (enrich_guest_memory-IsExact (collect_guest_memory (api.command item.node item.vmid))
            api.memory_at (external_id item) o t told known)
