-- ===== src/Bridge/Validate/Sound.antt =====
-- What a snapshot that passes `validate_snapshot` promises.
use komari_bridge.Base.{
  ◌⊎◌, ℕ, ◌+◌, ◌≡◌, refl, true, false, ◌↔◌, Option, none, some, List, [], ◌∷◌, length, All, arith,
  ok, fail_if, not, ◌||◌, >>-iff,
}
use komari_bridge.Base.Int.{ℤ, pos, ◌≤ℤ◌, ◌<ℤ◌, ltb_ℤ, leb_ℤ, eqb_ℤ}
use komari_bridge.Base.Text.{is_blank}
use komari_bridge.Base.Floats.{Float64}
use komari_bridge.Model.{Usage, DiskMount, GpuDevice, GpuReport, BasicInfo, Report, Snapshot, valid}
use komari_bridge.Bridge.Validate.{
  Invalid, no_memory_total, memory_totals_differ, swap_totals_differ, disk_totals_differ,
  negative_cores, cpu_usage_outside, validate_usage, validate_mounts, outside_percent,
  validate_devices, validate_gpu, validate_totals, validate_counters, validate_online,
  validate_snapshot,
}

pub record IsUsage (total used : ℤ) : Type 0 where
  pub used_nonneg : pos 0 ≤ℤ used
  pub used_le : used ≤ℤ total

pub record IsMount (m : DiskMount) : Type 0 where
  pub named : is_blank m.mountpoint ≡ false
  pub usage : IsUsage m.total m.used

validate_usage_iff :
    (name : _) (u : Usage) → (validate_usage name u ≡ ok tt) ↔ IsUsage u.total u.used
unfolding validate_usage
validate_usage_iff name u = ground arith

validate_mounts_iff :
    (i : ℕ) (ms : List DiskMount) → (validate_mounts i ms ≡ ok tt) ↔ All IsMount ms
unfolding validate_mounts
validate_mounts_iff i [] = (λ _. tt, λ _. refl)
validate_mounts_iff i (m ∷ ms) = ground (arith, validate_mounts_iff (i + 1) ms)

some_nonneg :
    (a b : ℤ) (e : Invalid)
    → (fail_if (ltb_ℤ a (pos 0) || ltb_ℤ b (pos 0)) e ≡ ok tt) ↔ ((pos 0 ≤ℤ a) × (pos 0 ≤ℤ b))
some_nonneg a b e = ground arith

some_pos :
    (a b : ℤ) (e : Invalid)
    → (fail_if (leb_ℤ a (pos 0) || leb_ℤ b (pos 0)) e ≡ ok tt) ↔ ((pos 0 <ℤ a) × (pos 0 <ℤ b))
some_pos a b e = ground arith

agree : (a b : ℤ) (e : Invalid) → (fail_if (not (eqb_ℤ a b)) e ≡ ok tt) ↔ (a ≡ b)
agree a b e = ground arith

module _ {F : Type 0} ⦃fl : Float64 F⦄ where
  open fl use {of_int, flt, is_nan, is_inf}

  -- A number between 0 and 100, and neither NaN nor infinite.
  pub record IsPercent (x : F) : Type 0 where
    pub not_nan : is_nan x ≡ false
    pub not_inf : is_inf x ≡ false
    pub not_below : flt x (of_int (pos 0)) ≡ false
    pub not_above : flt (of_int (pos 100)) x ≡ false

  pub record IsDevice (d : GpuDevice F) : Type 0 where
    pub memory : IsUsage d.memory_total d.memory_used
    pub utilization : IsPercent d.utilization

  pub record IsGpu (g : GpuReport F) : Type 0 where
    pub some_device : pos 0 <ℤ g.count
    pub counted : g.count ≡ pos (length g.detailed_info)
    pub average : IsPercent g.average_usage
    pub devices : All IsDevice g.detailed_info

  abbrev pub IsGpuPart : Option (GpuReport F) → Type 0
  IsGpuPart none = Unit
  IsGpuPart (some g) = IsGpu g

  -- The totals of a report agree with the basic info, and nothing is used beyond its total.
  pub record IsTotalled (info : BasicInfo) (report : Report F) : Type 0 where
    pub memory_known : pos 0 <ℤ info.memory_total
    pub memory_total : info.memory_total ≡ report.ram.total
    pub memory : IsUsage report.ram.total report.ram.used
    pub swap_total : info.swap_total ≡ report.swap.total
    pub swap : IsUsage report.swap.total report.swap.used
    pub disk_total : info.disk_total ≡ report.disk.total
    pub disk : IsUsage report.disk.total report.disk.used

  pub record IsCounted (report : Report F) : Type 0 where
    pub uptime : pos 0 ≤ℤ report.uptime
    pub process : pos 0 ≤ℤ report.process
    pub tcp : pos 0 ≤ℤ report.connections.tcp
    pub udp : pos 0 ≤ℤ report.connections.udp
    pub up : pos 0 ≤ℤ report.network.up
    pub down : pos 0 ≤ℤ report.network.down
    pub total_up : pos 0 ≤ℤ report.network.total_up
    pub total_down : pos 0 ≤ℤ report.network.total_down

  pub record IsReportable (info : BasicInfo) (report : Report F) : Type 0 where
    pub cores : pos 0 ≤ℤ info.cpu_cores
    pub physical_cores : pos 0 ≤ℤ info.cpu_physical_cores
    pub cpu : IsPercent report.cpu.usage
    pub totals : IsTotalled info report
    pub mounts : All IsMount report.disks
    pub counters : IsCounted report
    pub gpu : IsGpuPart report.gpu

  outside_percent_iff : (x : F) → (outside_percent x ≡ false) ↔ IsPercent x
  unfolding outside_percent
  outside_percent_iff x = ground arith

  validate_devices_iff :
      (i : ℕ) (ds : List (GpuDevice F)) → (validate_devices i ds ≡ ok tt) ↔ All IsDevice ds
  unfolding validate_devices
  validate_devices_iff i [] = (λ _. tt, λ _. refl)
  validate_devices_iff i (d ∷ ds) = ground (arith, validate_devices_iff (i + 1) ds)

  validate_gpu_iff : (g : Option (GpuReport F)) → (validate_gpu g ≡ ok tt) ↔ IsGpuPart g
  unfolding validate_gpu
  validate_gpu_iff none = (λ _. tt, λ _. refl)
  validate_gpu_iff (some g) = ground (arith, validate_devices_iff 0 g.detailed_info)

  percent : (x : F) (e : Invalid) → (fail_if (outside_percent x) e ≡ ok tt) ↔ IsPercent x
  percent x e = ground (arith, outside_percent_iff x)

  validate_totals_iff :
      (info : BasicInfo) (report : Report F)
      → (validate_totals info report ≡ ok tt) ↔ IsTotalled info report
  unfolding validate_totals
  validate_totals_iff info report =
      let parts = >>-iff (some_pos info.memory_total report.ram.total no_memory_total) (
        >>-iff (agree info.memory_total report.ram.total memory_totals_differ) (
          >>-iff (validate_usage_iff "memory" report.ram) (
            >>-iff (agree info.swap_total report.swap.total swap_totals_differ) (
              >>-iff (validate_usage_iff "swap" report.swap) (
                >>-iff (agree info.disk_total report.disk.total disk_totals_differ)
                  (validate_usage_iff "disk" report.disk)))))) in
      (
        λ h.
            let p = parts.0 h in
            record {
              memory_known = p.0.0;
              memory_total = p.1.0;
              memory = p.1.1.0;
              swap_total = p.1.1.1.0;
              swap = p.1.1.1.1.0;
              disk_total = p.1.1.1.1.1.0;
              disk = p.1.1.1.1.1.1;
            },
        λ r. parts.1 (
          (r.memory_known, rw (← r.memory_total) r.memory_known),
          (r.memory_total, (r.memory, (r.swap_total, (r.swap, (r.disk_total, r.disk))))),
        ),
      )

  validate_counters_iff :
      (report : Report F) → (validate_counters report ≡ ok tt) ↔ IsCounted report
  unfolding validate_counters
  validate_counters_iff report = ground arith

  pub validate_online_iff :
      (info : BasicInfo) (report : Report F)
      → (validate_online info report ≡ ok tt) ↔ IsReportable info report
  unfolding validate_online
  validate_online_iff info report =
      let parts = >>-iff (some_nonneg info.cpu_cores info.cpu_physical_cores negative_cores) (
        >>-iff (percent report.cpu.usage cpu_usage_outside) (
          >>-iff (validate_totals_iff info report) (
            >>-iff (validate_mounts_iff 0 report.disks)
              (>>-iff (validate_counters_iff report) (validate_gpu_iff report.gpu))))) in
      (
        λ h.
            let p = parts.0 h in
            record {
              cores = p.0.0;
              physical_cores = p.0.1;
              cpu = p.1.0;
              totals = p.1.1.0;
              mounts = p.1.1.1.0;
              counters = p.1.1.1.1.0;
              gpu = p.1.1.1.1.1;
            },
        λ r.
            parts.1
              ((r.cores, r.physical_cores), (r.cpu, (r.totals, (r.mounts, (r.counters, r.gpu))))),
      )

  -- A snapshot passes exactly when its identity is complete and, if it is online, its basic info
  -- and its report are reportable together.
  pub validate_snapshot_iff :
      (s : Snapshot F)
      → (validate_snapshot s ≡ ok tt)
        ↔ ((valid s.identity ≡ true) × ((s.online ≡ false) ⊎ IsReportable s.basic_info s.report))
  unfolding validate_snapshot
  validate_snapshot_iff s = ground (arith, validate_online_iff s.basic_info s.report)
