-- ===== src/Proxmox/Collect/Told.antt =====
-- What the collections of a Proxmox cluster show of the guests whose memory is to be the agent's.
use komari_bridge.Base.{
  ℕ, ◌+◌, ◌∙◌, ◌≡◌, refl, inl, inr, Bool-cases, true, String, Option, none, some, List, [], ◌∷◌, ok,
  Among, first, later,
}
use komari_bridge.Base.Dict.{lookup}
use komari_bridge.Base.Floats.{Float64}
use komari_bridge.Base.Text.{equal_fold}
use komari_bridge.Config.{ResourceOverride}
use komari_bridge.Proxmox.Memory.{GuestMemory, collect_guest_memory}
use komari_bridge.Proxmox.Disk.{GuestDisk}
use komari_bridge.Proxmox.Enrich.{NodeStatus, GuestOs}
use komari_bridge.Proxmox.Resource.{Resource, external_id, is_node, snapshot}
use komari_bridge.Proxmox.Requests.{do_json, answered}
use komari_bridge.Proxmox.Provider.{Provider, Caches}
use komari_bridge.Proxmox.Steps.{Turn, enrich_node, enrich_guest_os, enrich_guest_disk}
use komari_bridge.Proxmox.Collect.{
  Answers, Api, is_running_guest, is_listed, enrich_from_node, enrich_from_agent, observe,
  observe_all,
}
use komari_bridge.Proxmox.Collect.Contract.{
  IsKnown, IsExact, apply_override-IsKnown, apply_override-IsExact,
}

module _ {F : Type 0} where
  memory-enrich_node :
      (e : Option NodeStatus) (node : String) (t : Turn F)
      → (enrich_node e node t).1.guest_memory ≡ t.1.guest_memory
  unfolding enrich_node
  memory-enrich_node none node (s, c) = refl
  memory-enrich_node (some e) node (s, c) = refl

  memory-enrich_guest_os :
      (e : Option GuestOs) (id : String) (t : Turn F)
      → (enrich_guest_os e id t).1.guest_memory ≡ t.1.guest_memory
  unfolding enrich_guest_os
  memory-enrich_guest_os none id (s, c) = refl
  memory-enrich_guest_os (some e) id (s, c) = refl

  memory-enrich_guest_disk :
      (d : Option GuestDisk) (at : ℕ) (id : String) (t : Turn F)
      → (enrich_guest_disk d at id t).1.guest_memory ≡ t.1.guest_memory
  unfolding enrich_guest_disk
  memory-enrich_guest_disk none at id (s, c) = refl
  memory-enrich_guest_disk (some d) at id (s, c) = refl

  memory-enrich_from_node :
      (api : Answers) (item : Resource F) (t : Turn F)
      → (enrich_from_node api item t).1.guest_memory ≡ t.1.guest_memory
  unfolding enrich_from_node
  memory-enrich_from_node api item t = elim (Bool-cases (is_node item)) [
    | inl node ↦ rw node (memory-enrich_node _ _ t)
    | inr other ↦ rw other refl
  ]

  memory-enrich_from_agent :
      (api : Answers) (item : Resource F) (t : Turn F)
      → (enrich_from_agent api item t).1.guest_memory ≡ t.1.guest_memory
  unfolding enrich_from_agent
  memory-enrich_from_agent api item t = elim (Bool-cases (is_running_guest item)) [
    | inl runs ↦ rw runs (memory-enrich_guest_disk _ api.disk_at _ _ ∙ memory-enrich_guest_os _ _ t)
    | inr other ↦ rw other refl
  ]

  -- In a turn of a collection of the history, the agent of a guest that the cluster listed, with this
  -- identity, told this memory, and it was saved at this time.
  pub record IsToldBy (history : List (Api F)) (id : String) (saved : GuestMemory × ℕ)
      : Type 0 where
    pub api : Api F
    pub turn : ℕ
    pub items : List (Resource F)
    pub item : Resource F
    pub heard : Among api history
    pub resources : answered (do_json api.resources) ≡ some items
    pub listed : Among item items
    pub guest : external_id item ≡ id
    pub told : collect_guest_memory ((api.answers turn).command item.node item.vmid) ≡ ok saved.0
    pub at : (api.answers turn).memory_at ≡ saved.1

module _ {F : Type 0} ⦃fl : Float64 F⦄ (p : Provider) (history : List (Api F)) (api : Api F)
    (heard : Among api history) (items : List (Resource F))
    (resources : answered (do_json api.resources) ≡ some items) where
  abbrev Known : Caches → Type 0
  Known c = IsKnown (IsToldBy history) c

  saves :
      (n : ℕ) (item : Resource F)
      → Among item items
      → (m : GuestMemory)
      → collect_guest_memory ((api.answers n).command item.node item.vmid) ≡ ok m
      → IsToldBy history (external_id item) (m, (api.answers n).memory_at)
  saves n item listed m told = record {
    api = api;
    turn = n;
    items = items;
    item = item;
    heard = heard;
    resources = resources;
    listed = listed;
    guest = refl;
    told = told;
    at = refl;
  }

  -- The turn before the override.
  enriched : Answers → Resource F → Caches → Turn F
  enriched answers item c =
      let start = snapshot p.source item api.now c.network in
      enrich_from_agent answers item
        (enrich_from_node answers item (start.0, record c { network = start.1 }))

  enriched-IsKnown :
      (answers : Answers) (item : Resource F) (c : Caches)
      → Known c
      → Known (enriched answers item c).1
  unfolding enriched
  enriched-IsKnown answers item c known =
      rw (memory-enrich_from_agent, memory-enrich_from_node) known

  observe-IsKnown :
      (n : ℕ) (item : Resource F) (c : Caches)
      → Among item items
      → Known c
      → Known (observe p api.now (api.answers n) item c).1
  unfolding observe enriched
  observe-IsKnown n item c listed known =
      apply_override-IsKnown (IsToldBy history) (api.answers n) item
        (lookup (external_id item) p.resources) (enriched (api.answers n) item c)
        (saves n item listed) (enriched-IsKnown (api.answers n) item c known)

  pub observe-IsExact :
      (n : ℕ) (item : Resource F) (c : Caches) (o : ResourceOverride)
      → Among item items
      → Known c
      → lookup (external_id item) p.resources ≡ some o
      → is_running_guest item ≡ true
      → equal_fold o.guest_memory "qga" ≡ true
      → IsExact
          (IsToldBy history)
          (external_id item)
          (api.answers n).memory_at
          (observe p api.now (api.answers n) item c).0
  unfolding observe enriched
  observe-IsExact n item c o listed known asked runs agent = rw asked (
      apply_override-IsExact (IsToldBy history) (api.answers n) item o
        (enriched (api.answers n) item c) runs agent (saves n item listed)
        (enriched-IsKnown (api.answers n) item c known))

  pub observe_all-IsKnown :
      (n : ℕ) (some_items : List (Resource F)) (c : Caches)
      → ((item : Resource F) → Among item some_items → Among item items)
      → Known c
      → Known (observe_all p api n some_items c).1
  unfolding observe_all
  observe_all-IsKnown n [] c sub known = known
  observe_all-IsKnown n (item ∷ rest) c sub known = elim (Bool-cases (is_listed p item)) [
    | inl listed ↦ rw listed (
        observe_all-IsKnown (n + 1) rest (observe p api.now (api.answers n) item c).1
          (λ i h. sub i (later h)) (observe-IsKnown n item c (sub item first) known))
    | inr skipped ↦ rw skipped (observe_all-IsKnown (n + 1) rest c (λ i h. sub i (later h)) known)
  ]
