-- ===== src/Docker/Usage.antt =====
-- providers/docker/docker.go: cores, CPU, memory and network of a container, from its statistics.
use komari_bridge.Base.{
  ◌%◌, ℕ, zero, suc, ◌+◌, ◌-◌, ◌≡◌, String, ◌==◌, false, ◌||◌, ◌&&◌, any, Option, none, some,
  get_or, List, [], ◌∷◌, length, ltb, leb, eqb, arith, if◌then◌else◌,
}
use komari_bridge.Base.Int.{ℤ, pos, ◌+ℤ◌, ◌≤ℤ◌, ◌<ℤ◌, ltb_ℤ, leb_ℤ}
use komari_bridge.Base.Words.{two63, two64, wrap64}
use komari_bridge.Base.Dict.{Dict, lookup}
use komari_bridge.Base.Floats.{Float64}
use komari_bridge.Base.Text.{trim_space, split, join, atoi}
use komari_bridge.Model.{Usage}
use komari_bridge.Bridge.Validate.Sound.{IsUsage}

pub record CpuStats : Type 0 where
  pub total_usage : ℕ
  pub system_cpu_usage : ℕ
  pub online_cpus : ℤ

pub record MemoryStats : Type 0 where
  pub usage : ℕ
  pub limit : ℕ
  pub stats : Dict ℕ

pub record NetworkIo : Type 0 where
  pub rx_bytes : ℕ
  pub tx_bytes : ℕ

pub record StatsResponse : Type 0 where
  pub cpu_stats : CpuStats
  pub precpu_stats : CpuStats
  pub memory_stats : MemoryStats
  pub networks : Dict NetworkIo
  pub pids : ℤ

-- `inspectResponse.HostConfig`
pub record HostConfig : Type 0 where
  pub nano_cpus : ℤ
  pub cpu_quota : ℤ
  pub cpu_period : ℤ
  pub cpuset_cpus : String

-- `signed`: an uint64 as an int64, cut at the largest one.
unfoldable pub signed : ℕ → ℤ
signed value = if ltb (two63 - 1) value then pos (two63 - 1) else pos value

unfoldable pub container_memory_used : MemoryStats → ℕ
unfolding lookup
container_memory_used m =
    let inactive = get_or (lookup "inactive_file" m.stats) 0 in
    let cache = if eqb inactive 0 then get_or (lookup "cache" m.stats) 0 else inactive in
    if leb cache m.usage then m.usage - cache else m.usage

-- The totals over the networks but the loopback, up and down; both wrap.
unfoldable pub network_totals : Dict NetworkIo → ℕ × ℕ
network_totals [] = (0, 0)
network_totals ((name, n) ∷ networks) =
    let rest = network_totals networks in
    if name == "lo" then rest else ((rest.0 + n.tx_bytes) % two64, (rest.1 + n.rx_bytes) % two64)

-- The CPUs from `start` on, added to those seen.
unfoldable pub add_cpus : ℕ → ℕ → List ℕ → List ℕ
add_cpus start zero seen = seen
add_cpus start (suc count) seen =
    let rest = add_cpus (start + 1) count seen in
    if any (λ cpu. eqb cpu start) rest then rest else start ∷ rest

abbrev add_between : Option ℤ → Option ℤ → List ℕ → List ℕ
add_between (some (pos start)) (some (pos end)) seen =
    add_cpus start (if ltb end start then 0 else end - start + 1) seen
add_between _ _ seen = seen

-- One item, a CPU or a range of them. An item that is neither is left out.
abbrev add_item : List String → List ℕ → List ℕ
add_item [] seen = seen
add_item (start ∷ []) seen = add_between (atoi start) (atoi start) seen
add_item (start ∷ ends) seen = add_between (atoi start) (atoi (join "-" ends)) seen

unfoldable pub add_items : List String → List ℕ → List ℕ
unfolding add_cpus split join trim_space
add_items [] seen = seen
add_items (item ∷ items) seen =
    let trimmed = trim_space item in
    add_items items (if trimmed == "" then seen else add_item (split b'-' trimmed) seen)

unfoldable pub cpu_set_count : String → ℕ
unfolding add_items split
cpu_set_count value = length (add_items (split b',' value) [])

abbrev host_cpus : StatsResponse → ℤ
host_cpus stats =
    if leb_ℤ stats.cpu_stats.online_cpus (pos 0)
    then stats.precpu_stats.online_cpus
    else stats.cpu_stats.online_cpus

abbrev pub at_least_one : ℤ → ℤ
at_least_one n = if ltb_ℤ n (pos 1) then pos 1 else n

module _ {F : Type 0} (fl : Float64 F) where
  open fl use {of_int, truncate, fmul, fdiv, flt}

  -- The cores of a quota, rounded up, or all of the host's.
  abbrev cores_of_quota : ℤ → F → ℤ
  cores_of_quota hosts quota =
      let cores = truncate quota in
      if flt (of_int (pos 0)) quota
      then at_least_one (if flt (of_int cores) quota then wrap64 (cores +ℤ pos 1) else cores)
      else at_least_one hosts

  abbrev quota_cores : HostConfig → F
  quota_cores h =
      if ltb_ℤ (pos 0) h.nano_cpus
      then fdiv (of_int h.nano_cpus) (of_int (pos 1_000_000_000))
      else if ltb_ℤ (pos 0) h.cpu_quota && ltb_ℤ (pos 0) h.cpu_period
      then fdiv (of_int h.cpu_quota) (of_int h.cpu_period)
      else of_int (pos 0)

  unfoldable pub effective_cpu_cores : StatsResponse → HostConfig → ℤ
  unfolding cpu_set_count wrap64
  effective_cpu_cores stats h =
      let count = cpu_set_count h.cpuset_cpus in
      if ltb 0 count then pos count else cores_of_quota (host_cpus stats) (quota_cores h)

  -- The share of the effective cores that is used, in percent.
  unfoldable pub normalized_cpu : StatsResponse → ℤ → F
  normalized_cpu stats cores =
      let cpu_delta = stats.cpu_stats.total_usage - stats.precpu_stats.total_usage in
      let system_delta = stats.cpu_stats.system_cpu_usage - stats.precpu_stats.system_cpu_usage in
      let hosts = host_cpus stats in
      let share = fdiv (of_int (pos cpu_delta)) (of_int (pos system_delta)) in
      let usage = fdiv (fmul (fmul share (of_int hosts)) (of_int (pos 100))) (of_int cores) in
      if eqb cpu_delta 0 || eqb system_delta 0 || leb_ℤ hosts (pos 0) || leb_ℤ cores (pos 0)
      then of_int (pos 0)
      else if flt (of_int (pos 100)) usage
      then of_int (pos 100)
      else usage

  cores_of_quota_pos : (hosts : ℤ) (quota : F) → pos 1 ≤ℤ cores_of_quota hosts quota
  cores_of_quota_pos hosts quota = ground arith

  pub effective_cpu_cores_pos :
      (stats : StatsResponse) (h : HostConfig) → pos 1 ≤ℤ effective_cpu_cores stats h
  unfolding effective_cpu_cores
  effective_cpu_cores_pos stats h =
      ground (arith, cores_of_quota_pos (host_cpus stats) (quota_cores h))

  normalized_cpu_le :
      (stats : StatsResponse) (cores : ℤ)
      → flt (of_int (pos 100)) (of_int (pos 100)) ≡ false
      → flt (of_int (pos 100)) (of_int (pos 0)) ≡ false
      → flt (of_int (pos 100)) (normalized_cpu stats cores) ≡ false
  unfolding normalized_cpu
  normalized_cpu_le stats cores irreflexive zero_below = ground arith

  -- A container counts at least one core, whatever its quota, its CPU set and the host's CPUs are,
  -- and its CPU usage is never above 100 percent, if 100 is below neither itself nor 0.
  pub effective_cpu_cores_bounds :
      (stats : StatsResponse) (h : HostConfig)
      → flt (of_int (pos 100)) (of_int (pos 100)) ≡ false
      → flt (of_int (pos 100)) (of_int (pos 0)) ≡ false
      → (pos 1 ≤ℤ effective_cpu_cores stats h)
        × (flt (of_int (pos 100)) (normalized_cpu stats (effective_cpu_cores stats h)) ≡ false)
  effective_cpu_cores_bounds stats h irreflexive zero_below = (
    effective_cpu_cores_pos stats h,
    normalized_cpu_le stats (effective_cpu_cores stats h) irreflexive zero_below,
  )

-- The memory of an online snapshot, and `none` where the snapshot goes offline instead.
unfoldable pub memory_of : MemoryStats → Option Usage
unfolding signed container_memory_used
memory_of m =
    let total = signed m.limit in
    let used = signed (container_memory_used m) in
    if leb_ℤ total (pos 0) || ltb_ℤ used (pos 0) || ltb_ℤ total used
    then none
    else some (record { total = total; used = used })

-- Memory that is reported has a total and is used within it, and no more is used than the engine
-- says, also where the total does not fit in an int64.
pub memory_of_bounds :
    (m : MemoryStats) (u : Usage)
    → memory_of m ≡ some u
    → (pos 0 <ℤ u.total)
      × IsUsage u.total u.used
      × (u.total ≤ℤ pos m.limit)
      × (u.used ≤ℤ pos m.usage)
unfolding memory_of
memory_of_bounds m u h = ground arith
