-- ===== src/Proxmox/Collect.antt =====
-- providers/proxmox/proxmox.go: `Collect`, the loop over the cluster's resources.
pub mod Preserve
pub mod Nodes
pub mod Contract
pub mod Told
pub mod Guests
use komari_bridge.Base.{
  ℕ, zero, suc, ◌+◌, ◌≡◌, refl, String, ◌<>◌, ◌==◌, Bool, true, false, not, ◌||◌, ◌&&◌, Option,
  none, some, List, [], ◌∷◌, if◌then◌else◌, Result, ok, err, fail_if, ◌>>◌,
}
use komari_bridge.Base.Int.{ℤ, pos, eqb_ℤ}
use komari_bridge.Base.Dict.{Dict, lookup, insert, StringSet, member}
use komari_bridge.Base.Floats.{Float64}
use komari_bridge.Base.Text.{trim_space, is_blank, trim_slashes, equal_fold}
use komari_bridge.Model.{Snapshot}
use komari_bridge.Config.{ProxmoxConfig, ResourceOverride}
use komari_bridge.Proxmox.Memory.{GuestMemory, MemoryError, GuestCommand, collect_guest_memory}
use komari_bridge.Proxmox.Disk.{GuestDisk, GuestFilesystem, summarize_guest_filesystems}
use komari_bridge.Proxmox.Guest.{apply_guest_memory, apply_guest_disk, store_guest, load_guest}
use komari_bridge.Proxmox.Resource.{
  Resource, NetworkSample, Source, node_name, is_node, external_id, is_up, snapshot,
}
use komari_bridge.Proxmox.Enrich.{
  NodeStatus, GuestOs, NodeStatusResponse, GuestOsResponse, valid_node_status, node_status_of,
  valid_guest_os, guest_os_of, usable_status, usable_guest_os, apply_node_status, apply_guest_os,
}
use komari_bridge.Komari.{Reply}
use komari_bridge.Proxmox.Requests.{do_json, answered}
use komari_bridge.Proxmox.Provider.{Provider, Caches}
use komari_bridge.Proxmox.Steps.{
  Turn, enrich_node, enrich_guest_os, enrich_guest_disk, enrich_guest_memory, override_names,
}

-- What the API answers to the requests that the loop makes about one resource, and the clock when
-- the guest's caches are written or read.
pub record Answers : Type 0 where
  pub node_status : String → Reply NodeStatusResponse
  pub guest_os : String → ℤ → Reply GuestOsResponse
  pub filesystems : String → ℤ → Reply (List GuestFilesystem)
  pub command : String → ℤ → GuestCommand
  pub disk_at : ℕ
  pub memory_at : ℕ

-- The API in one collection: the cluster's resources, and the answers in each turn of the loop.
pub record Api (F : Type 0) : Type 0 where
  pub now : ℕ
  pub resources : Reply (List (Resource F))
  pub answers : ℕ → Answers

pub data CollectError : Type 0 where
  resources_failed : CollectError

abbrev pub usable_disk : Option (List GuestFilesystem) → Option GuestDisk
usable_disk none = none
usable_disk (some fs) = elim (summarize_guest_filesystems fs) [ ok d ↦ some d | err _ ↦ none ]

module _ {F : Type 0} where
  abbrev pub is_running_guest : Resource F → Bool
  is_running_guest item = (item.type == "qemu") && (item.status == "running")

  unfoldable pub enrich_from_node : Answers → Resource F → Turn F → Turn F
  unfolding enrich_node node_name is_node valid_node_status node_status_of
  enrich_from_node api item t =
      if is_node item
      then enrich_node (usable_status (answered (do_json (api.node_status (node_name item)))))
          (node_name item) t
      else t

  unfoldable pub enrich_from_agent : Answers → Resource F → Turn F → Turn F
  unfolding enrich_guest_os enrich_guest_disk external_id valid_guest_os guest_os_of
      summarize_guest_filesystems
  enrich_from_agent api item t =
      let id = external_id item in
      if is_running_guest item
      then enrich_guest_disk
          (usable_disk (answered (do_json (api.filesystems item.node item.vmid)))) api.disk_at id
          (enrich_guest_os (usable_guest_os (answered (do_json (api.guest_os item.node item.vmid))))
            id t)
      else t

  unfoldable pub apply_override : Answers → Resource F → Option ResourceOverride → Turn F → Turn F
  unfolding enrich_guest_memory collect_guest_memory override_names external_id equal_fold
  apply_override api item none t = t
  apply_override api item (some o) t =
      let asked =
        if is_running_guest item && equal_fold o.guest_memory "qga"
        then enrich_guest_memory (collect_guest_memory (api.command item.node item.vmid))
            api.memory_at (external_id item) t
        else t in
      (override_names o asked.0, asked.1)

module _ {F : Type 0} ⦃fl : Float64 F⦄ where
  unfoldable pub is_listed : Provider → Resource F → Bool
  unfolding external_id is_up member
  is_listed p item =
      eqb_ℤ item.template (pos 0)
      && ((item.type == "node") || (item.type == "qemu") || (item.type == "lxc"))
      && not (member (external_id item) p.excluded)
      && (not p.skip_stopped || is_up item)

  -- One turn of the loop, for a resource that is listed.
  unfoldable pub observe : Provider → ℕ → Answers → Resource F → Caches → Turn F
  unfolding snapshot enrich_from_node enrich_from_agent apply_override lookup external_id
  observe p now api item c =
      let first = snapshot p.source item now c.network in
      apply_override api item (lookup (external_id item) p.resources) (
        enrich_from_agent api item
          (enrich_from_node api item (first.0, record c { network = first.1 })))

  unfoldable pub observe_all :
      Provider → Api F → ℕ → List (Resource F) → Caches → List (Snapshot F) × Caches
  unfolding observe is_listed
  observe_all p api turn [] c = ([], c)
  observe_all p api turn (item ∷ items) c =
      let seen = observe p api.now (api.answers turn) item c in
      let others = observe_all p api (turn + 1) items seen.1 in
      let skipped = observe_all p api (turn + 1) items c in
      if is_listed p item then (seen.0 ∷ others.0, others.1) else skipped

  abbrev pub collect_from :
      Provider
      → Api F
      → Option (List (Resource F))
      → Caches
      → Result CollectError (List (Snapshot F)) × Caches
  collect_from p api none c = (err resources_failed, c)
  collect_from p api (some items) c = let all = observe_all p api 0 items c in (ok all.0, all.1)

  unfoldable pub collect :
      Provider → Api F → Caches → Result CollectError (List (Snapshot F)) × Caches
  unfolding observe_all do_json
  collect p api c = collect_from p api (answered (do_json api.resources)) c
