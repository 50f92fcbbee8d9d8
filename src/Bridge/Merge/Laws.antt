-- ===== src/Bridge/Merge/Laws.antt =====
-- What a merge keeps and replaces.
use komari_bridge.Base.{Bool-cases, inl, inr, ◌≡◌, arith, if◌then◌else◌}
use komari_bridge.Base.Int.{leb_ℤ, ◌≤ℤ◌, ◌<ℤ◌}
use komari_bridge.Model.{Snapshot}
use komari_bridge.Bridge.Merge.{merge_snapshots}

module _ {F : Type 0} where
  -- `e` is the payload of `m`: its metrics, whether it is online, its time and its priority.
  pub record IsPayload (e m : Snapshot F) : Type 0 where
    pub report : m.report ≡ e.report
    pub online : m.online ≡ e.online
    pub collected_at : m.collected_at ≡ e.collected_at
    pub priority : m.priority ≡ e.priority
    pub memory_total : m.basic_info.memory_total ≡ e.basic_info.memory_total
    pub swap_total : m.basic_info.swap_total ≡ e.basic_info.swap_total
    pub disk_total : m.basic_info.disk_total ≡ e.basic_info.disk_total
    pub os : m.basic_info.os ≡ e.basic_info.os
    pub cpu_name : m.basic_info.cpu_name ≡ e.basic_info.cpu_name

  pub merge_cases :
      (a b : Snapshot F)
      → (a.priority ≤ℤ b.priority → IsPayload b (merge_snapshots a b))
        × (b.priority <ℤ a.priority → IsPayload a (merge_snapshots a b))
  unfolding merge_snapshots
  merge_cases a b = ground arith

  -- Of two snapshots the one with the higher priority is the payload of the merge, the later one at
  -- a tie: its report, whether it is online, its time, its priority, its totals, system and CPU.
  pub merge-IsPayload :
      (a b : Snapshot F)
      → IsPayload (if leb_ℤ a.priority b.priority then b else a) (merge_snapshots a b)
  merge-IsPayload a b =
      let cases = merge_cases a b in
      elim (Bool-cases (leb_ℤ a.priority b.priority)) [
        | inl e ↦ rw e (cases.0 (ground arith))
        | inr e ↦ rw e (cases.1 (ground arith))
      ]

  -- A merge of two snapshots of one resource is a snapshot of that resource.
  pub identity-merge :
      (a b : Snapshot F) → a.identity ≡ b.identity → (merge_snapshots a b).identity ≡ a.identity
  unfolding merge_snapshots
  identity-merge a b h = ground arith
