-- ===== src/Proxmox/Collect/Preserve.antt =====
-- What each part of a turn of the loop over a Proxmox cluster keeps of its nodes.
use komari_bridge.Base.{
  ℕ, ◌≡◌, refl, ◌⊎◌, inl, inr, String, ◌==◌, Bool, Bool-cases, true, false, Option, none, some,
  if◌then◌else◌, Result, ok, err, arith, ◌&&◌,
}
use komari_bridge.Base.Int.{pos, ◌<ℤ◌}
use komari_bridge.Base.Dict.{lookup, AllValues, AllSome, lookup-AllValues, insert-AllValues}
use komari_bridge.Base.Text.{equal_fold}
use komari_bridge.Model.{Snapshot}
use komari_bridge.Config.{ResourceOverride}
use komari_bridge.Proxmox.Memory.{GuestMemory, MemoryError}
use komari_bridge.Proxmox.Disk.{GuestDisk}
use komari_bridge.Proxmox.Guest.{apply_guest_memory, apply_guest_disk}
use komari_bridge.Proxmox.Resource.{Resource, node_name, is_node}
use komari_bridge.Proxmox.Enrich.{
  NodeStatus, GuestOs, NodeStatusResponse, valid_node_status, node_status_of, usable_status,
  apply_node_status, apply_guest_os,
}
use komari_bridge.Proxmox.Requests.{do_json, answered}
use komari_bridge.Proxmox.Provider.{Caches}
use komari_bridge.Proxmox.Steps.{
  Turn, known_node, known_guest_os, known_disk, known_memory, enrich_node, enrich_guest_os,
  enrich_guest_disk, enrich_guest_memory, override_names,
}
use komari_bridge.Proxmox.Collect.{
  Answers, is_running_guest, enrich_from_node, enrich_from_agent, apply_override,
}

-- A status of a node with its CPUs.
pub record IsNodeStatus (e : NodeStatus) : Type 0 where
  pub cores : pos 0 <ℤ e.cpu_cores
  pub physical_cores : pos 0 <ℤ e.cpu_physical_cores

abbrev pub IsSound : Caches → Type 0
IsSound c = AllValues IsNodeStatus c.node_status

valid_status-IsNodeStatus :
    (r : NodeStatusResponse) → valid_node_status r ≡ true → IsNodeStatus (node_status_of r)
unfolding valid_node_status node_status_of
valid_status-IsNodeStatus r valid = ground arith

usable_status-AllSome : (r : Option NodeStatusResponse) → AllSome IsNodeStatus (usable_status r)
usable_status-AllSome none = tt
usable_status-AllSome (some r) = elim (Bool-cases (valid_node_status r)) [
  | inl valid ↦ rw valid (valid_status-IsNodeStatus r valid)
  | inr invalid ↦ rw invalid tt
]

module _ {F : Type 0} where
  -- A snapshot that is no node's, is offline, or has the CPUs of its node.
  abbrev pub IsShown : Snapshot F → Type 0
  IsShown s =
      (s.online ≡ false)
      ⊎ ((s.resource_type == "node") ≡ false)
      ⊎ ((pos 0 <ℤ s.basic_info.cpu_cores) × (pos 0 <ℤ s.basic_info.cpu_physical_cores))

  pub record IsTurn (t : Turn F) : Type 0 where
    pub shown : IsShown t.0
    pub sound : IsSound t.1

  turn : {s : Snapshot F} {c : Caches} → IsShown s → IsSound c → IsTurn (s, c)
  turn shown sound = record { shown = shown; sound = sound }

  known_node-IsShown :
      (e : Option NodeStatus) (s : Snapshot F) → AllSome IsNodeStatus e → IsShown (known_node e s)
  unfolding apply_node_status
  known_node-IsShown none s h = inl refl
  known_node-IsShown (some e) s h = inr (inr (h.cores, h.physical_cores))

  enrich_node-IsTurn :
      (e : Option NodeStatus) (node : String) (s : Snapshot F) (c : Caches)
      → AllSome IsNodeStatus e
      → IsSound c
      → IsTurn (enrich_node e node (s, c))
  unfolding enrich_node
  enrich_node-IsTurn none node s c h sound =
      turn
        (known_node-IsShown (lookup node c.node_status) s
          (lookup-AllValues IsNodeStatus node c.node_status sound))
        (sound)
  enrich_node-IsTurn (some e) node s c h sound =
      turn (known_node-IsShown (some e) s h)
        (insert-AllValues IsNodeStatus node e c.node_status h sound)

  known_guest_os-IsShown :
      (e : Option GuestOs) (s : Snapshot F) → IsShown s → IsShown (known_guest_os e s)
  unfolding apply_guest_os
  known_guest_os-IsShown none s h = h
  known_guest_os-IsShown (some e) s h = h

  enrich_guest_os-IsTurn :
      (e : Option GuestOs) (id : String) (t : Turn F) → IsTurn t → IsTurn (enrich_guest_os e id t)
  unfolding enrich_guest_os
  enrich_guest_os-IsTurn none id (s, c) h = turn (known_guest_os-IsShown _ s h.shown) h.sound
  enrich_guest_os-IsTurn (some e) id (s, c) h =
      turn (known_guest_os-IsShown (some e) s h.shown) h.sound

  known_disk-IsShown :
      (d : Option GuestDisk) (s : Snapshot F) → IsShown s → IsShown (known_disk d s)
  unfolding apply_guest_disk
  known_disk-IsShown none s h = h
  known_disk-IsShown (some d) s h = h

  enrich_guest_disk-IsTurn :
      (d : Option GuestDisk) (at : ℕ) (id : String) (t : Turn F)
      → IsTurn t
      → IsTurn (enrich_guest_disk d at id t)
  unfolding enrich_guest_disk apply_guest_disk
  enrich_guest_disk-IsTurn none at id (s, c) h = turn (known_disk-IsShown _ s h.shown) h.sound
  enrich_guest_disk-IsTurn (some d) at id (s, c) h = turn h.shown h.sound

  known_memory-IsShown :
      (m : Option GuestMemory) (s : Snapshot F) → IsShown s → IsShown (known_memory m s)
  unfolding apply_guest_memory
  known_memory-IsShown none s h = inl refl
  known_memory-IsShown (some m) s h = h

  enrich_guest_memory-IsTurn :
      (r : Result MemoryError GuestMemory) (at : ℕ) (id : String) (t : Turn F)
      → IsTurn t
      → IsTurn (enrich_guest_memory r at id t)
  unfolding enrich_guest_memory apply_guest_memory
  enrich_guest_memory-IsTurn (err _) at id (s, c) h =
      turn (known_memory-IsShown _ s h.shown) h.sound
  enrich_guest_memory-IsTurn (ok m) at id (s, c) h = turn h.shown h.sound

  if-IsTurn : (b : Bool) (t u : Turn F) → IsTurn t → IsTurn u → IsTurn (if b then t else u)
  if-IsTurn true t u h k = h
  if-IsTurn false t u h k = k

  pub enrich_from_agent-IsTurn :
      (api : Answers) (item : Resource F) (t : Turn F)
      → IsTurn t
      → IsTurn (enrich_from_agent api item t)
  unfolding enrich_from_agent
  enrich_from_agent-IsTurn api item t h =
      if-IsTurn (is_running_guest item) _ t
        (enrich_guest_disk-IsTurn _ _ _ _ (enrich_guest_os-IsTurn _ _ t h)) h

  override_names-IsTurn :
      (o : ResourceOverride) (t : Turn F) → IsTurn t → IsTurn (override_names o t.0, t.1)
  unfolding override_names
  override_names-IsTurn o t h = turn h.shown h.sound

  pub apply_override-IsTurn :
      (api : Answers) (item : Resource F) (o : Option ResourceOverride) (t : Turn F)
      → IsTurn t
      → IsTurn (apply_override api item o t)
  unfolding apply_override
  apply_override-IsTurn api item none t h = h
  apply_override-IsTurn api item (some o) t h = override_names-IsTurn o _ (
      if-IsTurn (is_running_guest item && equal_fold o.guest_memory "qga") _ t
        (enrich_guest_memory-IsTurn _ _ _ t h) h)

  pub enrich_from_node-IsTurn :
      (api : Answers) (item : Resource F) (s : Snapshot F) (c : Caches)
      → s.resource_type ≡ item.type
      → IsSound c
      → IsTurn (enrich_from_node api item (s, c))
  unfolding enrich_from_node is_node
  enrich_from_node-IsTurn api item s c type sound = elim (Bool-cases (item.type == "node")) [
    | inl node ↦ rw node (
        enrich_node-IsTurn (usable_status (answered (do_json (api.node_status (node_name item)))))
          (node_name item) s c
          (usable_status-AllSome (answered (do_json (api.node_status (node_name item))))) sound)
    | inr other ↦ rw other (turn (inr (inl (rw type other))) sound)
  ]
