-- ===== src/App/Order.antt =====
-- The order of the collections in a cycle, and the store of the clusters.
use mathlib.Core.Quot
use komari_bridge.Base.{◌≡◌, ◌≢◌, refl, String, Option, none, some, arith, eq_iff}
use komari_bridge.Base.Floats.{Float64}
use komari_bridge.Slurm.{Clusters, ClusterSnapshot, get, set}
use komari_bridge.Slurm.Abstract.{Store, get-set}
use komari_bridge.Linux.Collect.Written.{put, written, clusters-collect}
use komari_bridge.App.{Live, proxmox, docker, linux, windows, World, live_source, collect_live}

put_comm :
    (i j id : String) (c d : Option ClusterSnapshot) (s : Clusters)
    → i ≢ j
    → get id (put j d (put i c s)) ≡ get id (put i c (put j d s))
put_comm i j id none d s ne = refl
put_comm i j id (some x) none s ne = refl
put_comm i j id (some x) (some y) s ne =
    rw (get-set j id y (set i x s), get-set i id x s, get-set i id x (set j y s), get-set j id y s)
      (ground (arith, eq_iff i id, eq_iff j id, ne))

module _ {F : Type 0} ⦃fl : Float64 F⦄ where
  -- What the collection of a provider writes under its id.
  abbrev writes_of : World F → Live F → Option ClusterSnapshot
  writes_of w (linux p st) = written w.linux_host.0 p w.linux_host.1 st.session
  writes_of w _ = none

  stored-collect_live :
      (w : World F) (p : Live F) (c : Clusters)
      → (collect_live w p c).stored ≡ put (live_source p).1 (writes_of w p) c
  unfolding collect_live live_source
  stored-collect_live w (proxmox p caches) c = refl
  stored-collect_live w (docker cfg samples) c = refl
  stored-collect_live w (linux p st) c =
      clusters-collect w.linux_host.0 p w.linux_host.1 (record st { clusters = c })
  stored-collect_live w (windows p st) c = refl

  -- Two providers with different ids may collect in either order: the store of the clusters that they
  -- leave is the same, seen as what can be read from it.
  pub collect_live_comm :
      (w v : World F) (p q : Live F) (c : Clusters)
      → (live_source p).1 ≢ (live_source q).1
      → Path Store
          (Quot.mk (collect_live v q (collect_live w p c).stored).stored)
          (Quot.mk (collect_live w p (collect_live v q c).stored).stored)
  collect_live_comm w v p q c ne = Quot.sound (λ id.
      rw
        (
          stored-collect_live v q (collect_live w p c).stored,
          stored-collect_live w p c,
          stored-collect_live w p (collect_live v q c).stored,
          stored-collect_live v q c,
        )
        (put_comm (live_source p).1 (live_source q).1 id (writes_of w p) (writes_of v q) c ne))
