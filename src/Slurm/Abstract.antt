-- ===== src/Slurm/Abstract.antt =====
-- internal/slurm/store.go: the store as what can be read from it. A Go map has no order: two lists of
-- entries from which every id is read alike are one store here.
use mathlib.Core.HLevel.{→_prop}
use text.Mathlib.TextEquality.{IsScalar-prop}
use mathlib.Core.Quot
use mathlib.Core.Quot.{Quot, Quot-set}
use komari_bridge.Base.{◌≡◌, ◌≢◌, refl, String, ◌==◌, Option, some, if◌then◌else◌, arith, eq_iff}
use komari_bridge.Base.Dict.{lookup-insert}
use komari_bridge.Slurm.{Clusters, ClusterSnapshot, set, get}

abbrev pub SameClusters : Clusters → Clusters → Type 0
SameClusters s t = (id : String) → get id s ≡ get id t

abbrev pub Store : Type 0
Store = Quot SameClusters

pub Option_ClusterSnapshot-set : IsSet (Option ClusterSnapshot)
Option_ClusterSnapshot-set = hlevel IsScalar-prop

pub get-set :
    (i j : String) (c : ClusterSnapshot) (s : Clusters)
    → get j (set i c s) ≡ (if i == j then some c else get j s)
unfolding get set
get-set i j c s = lookup-insert i j c s

-- `Get` and `Set` do not see the order of the entries.
unfoldable pub read : String → Store → Option ClusterSnapshot
read id = Quot.lift Option_ClusterSnapshot-set (get id) (λ s t h. h id)

pub set-SameClusters :
    (i : String) (c : ClusterSnapshot) (s t : Clusters)
    → SameClusters s t
    → SameClusters (set i c s) (set i c t)
set-SameClusters i c s t h j = rw (get-set i j c s, get-set i j c t, h j) refl

unfoldable pub write : String → ClusterSnapshot → Store → Store
write i c =
    Quot.lift Quot-set (λ s. Quot.mk (set i c s)) (λ s t h. Quot.sound (set-SameClusters i c s t h))

pub read-write :
    (i j : String) (c : ClusterSnapshot) (s : Store)
    → read j (write i c s) ≡ (if i == j then some c else read j s)
unfolding read write
read-write i j c = Quot.ind (λ s. Option_ClusterSnapshot-set _ _) (λ s. get-set i j c s)

-- A store is what is read from it.
pub Store-ext : (a b : Store) → ((id : String) → read id a ≡ read id b) → a ≡ b
unfolding read
Store-ext a b =
    Quot.ind (λ (q : Store). →_prop {A = (id : String) → read id q ≡ read id b} (Quot-set q b))
      (λ s.
        Quot.ind
          (λ (q : Store).
            →_prop {A = (id : String) → get id s ≡ read id q} (Quot-set (Quot.mk s) q))
          (λ t h. Quot.sound h) b)
      a

-- Writes under different ids may come in either order.
pub write_comm :
    (i j : String) (c d : ClusterSnapshot) (s : Store)
    → i ≢ j
    → write i c (write j d s) ≡ write j d (write i c s)
write_comm i j c d s ne = Store-ext _ _ (λ id.
    rw
      (
        read-write i id c (write j d s),
        read-write j id d s,
        read-write j id d (write i c s),
        read-write i id c s,
      )
      (ground (arith, eq_iff i id, eq_iff j id, ne)))
