-- ===== src/Bridge/Validate.antt =====
-- internal/bridge/runner.go: `validateSnapshot` and `validateUsage`, the last check before a
-- snapshot is reported.
pub mod Sound
use komari_bridge.Base.{
  ℕ, ◌+◌, String, ◌<>◌, Bool, true, false, not, ◌||◌, Option, none, some, List, [], ◌∷◌, length,
  if◌then◌else◌, Result, ok, err, fail_if, ◌>>=◌, ◌>>◌,
}
use komari_bridge.Base.Int.{ℤ, pos, ltb_ℤ, leb_ℤ, eqb_ℤ}
use komari_bridge.Base.Text.{is_blank}
use komari_bridge.Base.Floats.{Float64}
use komari_bridge.Model.{Usage, DiskMount, GpuDevice, GpuReport, BasicInfo, Report, Snapshot, valid}

-- The errors that the checks return, without the numbers that their texts print.
pub data Invalid : Type 0 where
  invalid_identity negative_cores cpu_usage_outside no_memory_total : Invalid
  memory_totals_differ swap_totals_differ disk_totals_differ : Invalid
  invalid_usage : String → Invalid
  no_mountpoint : ℕ → Invalid
  negative_host_counter negative_network_counter : Invalid
  gpu_count_differs gpu_average_outside : Invalid
  gpu_memory_invalid gpu_utilization_outside : ℕ → Invalid

abbrev pub Check : Type 0
Check = Result Invalid (Unit {0})

unfoldable pub validate_usage : String → Usage → Check
validate_usage name usage =
    fail_if (ltb_ℤ usage.total (pos 0) || ltb_ℤ usage.used (pos 0) || ltb_ℤ usage.total usage.used)
      (invalid_usage name)

-- The loop over the mounts, from an index on.
unfoldable pub validate_mounts : ℕ → List DiskMount → Check
unfolding validate_usage is_blank
validate_mounts index [] = ok tt
validate_mounts index (mount ∷ mounts) =
    let rest = validate_mounts (index + 1) mounts in
    do
      fail_if (is_blank mount.mountpoint) (no_mountpoint index)
      validate_usage ("disk mount " <> mount.mountpoint)
          (record { total = mount.total; used = mount.used })
      rest

module _ {F : Type 0} ⦃fl : Float64 F⦄ where
  open fl use {of_int, flt, is_nan, is_inf}

  -- `math.IsNaN(x) || math.IsInf(x, 0) || x < 0 || x > 100`.
  unfoldable pub outside_percent : F → Bool
  outside_percent x = is_nan x || is_inf x || flt x (of_int (pos 0)) || flt (of_int (pos 100)) x

  -- The loop over the devices, from an index on.
  unfoldable pub validate_devices : ℕ → List (GpuDevice F) → Check
  unfolding outside_percent
  validate_devices index [] = ok tt
  validate_devices index (device ∷ devices) =
      let rest = validate_devices (index + 1) devices in
      do
        fail_if
            (ltb_ℤ device.memory_total (pos 0)
              || ltb_ℤ device.memory_used (pos 0)
              || ltb_ℤ device.memory_total device.memory_used)
            (gpu_memory_invalid index)
        fail_if (outside_percent device.utilization) (gpu_utilization_outside index)
        rest

  unfoldable pub validate_gpu : Option (GpuReport F) → Check
  unfolding validate_devices
  validate_gpu none = ok tt
  validate_gpu (some gpu) = do
    fail_if (leb_ℤ gpu.count (pos 0) || not (eqb_ℤ gpu.count (pos (length gpu.detailed_info))))
        gpu_count_differs
    fail_if (outside_percent gpu.average_usage) gpu_average_outside
    validate_devices 0 gpu.detailed_info

  -- The three totals, each against the basic info and the use of it.
  unfoldable pub validate_totals : BasicInfo → Report F → Check
  unfolding validate_usage
  validate_totals info report = do
    fail_if (leb_ℤ info.memory_total (pos 0) || leb_ℤ report.ram.total (pos 0)) no_memory_total
    fail_if (not (eqb_ℤ info.memory_total report.ram.total)) memory_totals_differ
    validate_usage "memory" report.ram
    fail_if (not (eqb_ℤ info.swap_total report.swap.total)) swap_totals_differ
    validate_usage "swap" report.swap
    fail_if (not (eqb_ℤ info.disk_total report.disk.total)) disk_totals_differ
    validate_usage "disk" report.disk

  unfoldable pub validate_counters : Report F → Check
  validate_counters report = do
    fail_if
        (ltb_ℤ report.uptime (pos 0)
          || ltb_ℤ report.process (pos 0)
          || ltb_ℤ report.connections.tcp (pos 0)
          || ltb_ℤ report.connections.udp (pos 0))
        negative_host_counter
    fail_if
        (ltb_ℤ report.network.up (pos 0)
          || ltb_ℤ report.network.down (pos 0)
          || ltb_ℤ report.network.total_up (pos 0)
          || ltb_ℤ report.network.total_down (pos 0))
        negative_network_counter

  -- The checks of an online snapshot, in the order of the code.
  unfoldable pub validate_online : BasicInfo → Report F → Check
  unfolding validate_totals validate_counters validate_mounts validate_gpu
  validate_online info report = do
    fail_if (ltb_ℤ info.cpu_cores (pos 0) || ltb_ℤ info.cpu_physical_cores (pos 0)) negative_cores
    fail_if (outside_percent report.cpu.usage) cpu_usage_outside
    validate_totals info report
    validate_mounts 0 report.disks
    validate_counters report
    validate_gpu report.gpu

  unfoldable pub validate_snapshot : Snapshot F → Check
  unfolding validate_online valid
  validate_snapshot s = do
    fail_if (not (valid s.identity)) invalid_identity
    if not s.online then ok tt else validate_online s.basic_info s.report
