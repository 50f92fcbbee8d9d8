-- ===== src/Proxmox/Collect/Guests.antt =====
-- The memory of guests over a history of collections.
use komari_bridge.Base.{List}
use komari_bridge.Base.Floats.{Float64}
use komari_bridge.Proxmox.Resource.{Resource}
use komari_bridge.Proxmox.Provider.{Provider, Caches}
use komari_bridge.Proxmox.Collect.{Api, observe_all}

module _ {F : Type 0} ⦃fl : Float64 F⦄ (p : Provider) where
  -- What the loop has saved when it comes to a resource.
  abbrev pub caches_at : Api F → List (Resource F) → Caches → Caches
  caches_at api before c = (observe_all p api 0 before c).1
