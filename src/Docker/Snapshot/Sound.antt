-- ===== src/Docker/Snapshot/Sound.antt =====
-- What the snapshots of a Docker engine guarantee.
use komari_bridge.Base.{
  ℕ, ◌+◌, ◌≡◌, refl, String, true, false, not, ◌&&◌, Bool-cases, ◌⊎◌, inl, inr, All, Option, none,
  some, List, [], ◌∷◌, arith, ok,
}
use komari_bridge.Base.Int.{ℤ, pos, ◌<ℤ◌, ◌≤ℤ◌}
use komari_bridge.Base.Dict.{Dict}
use komari_bridge.Base.Floats.{Float64}
use komari_bridge.Config.{DockerConfig}
use komari_bridge.Model.{Snapshot, Usage}
use komari_bridge.Bridge.Validate.Sound.{IsUsage, IsTotalled}
use komari_bridge.Docker.Selection.{ContainerSummary, selected_containers}
use komari_bridge.Docker.Usage.{
  StatsResponse, HostConfig, memory_of, memory_of_bounds, effective_cpu_cores_pos,
}
use komari_bridge.Docker.Samples.{NetworkSample}
use komari_bridge.Docker.Snapshot.{
  CollectedStats, is_running, base_snapshot, container_report, with_report, measured, snapshot,
}
use komari_bridge.Docker.Collect.{
  Engine, gather_container, snapshots, collect_from, collect, sort_containers,
}

module _ {F : Type 0} ⦃fl : Float64 F⦄ where
  -- A snapshot that is offline, or of a container with a core, memory and totals that agree.
  abbrev pub IsMeasured : Snapshot F → Type 0
  IsMeasured s =
      (s.online ≡ false) ⊎ (IsTotalled s.basic_info s.report × (pos 1 ≤ℤ s.basic_info.cpu_cores))

  with_report-IsMeasured :
      (s : Snapshot F) (stats : StatsResponse) (h : HostConfig) (memory : Usage) (rates : ℤ × ℤ)
      (uptime : ℤ)
      → (pos 0 <ℤ memory.total) × IsUsage memory.total memory.used
      → s.basic_info.swap_total ≡ pos 0
      → s.basic_info.disk_total ≡ pos 0
      → IsMeasured (with_report s (container_report stats h memory rates uptime))
  unfolding with_report container_report
  with_report-IsMeasured s stats h memory rates uptime (sized, used) swap disk = inr (
    record {
      memory_known = sized;
      memory_total = refl;
      memory = used;
      swap_total = swap;
      swap = record { used_nonneg = omega arith; used_le = omega arith };
      disk_total = disk;
      disk = record { used_nonneg = omega arith; used_le = omega arith };
    },
    effective_cpu_cores_pos fl stats h,
  )

  measured-IsMeasured :
      (parse_time : String → Option ℕ) (cfg : DockerConfig) (c : ContainerSummary)
      (r : CollectedStats) (now : ℕ) (memory : Option Usage) (samples : Dict NetworkSample)
      → memory_of r.stats.memory_stats ≡ memory
      → IsMeasured (measured parse_time cfg c r now memory samples).0
  unfolding measured base_snapshot
  measured-IsMeasured parse_time cfg c r now none samples e = inl refl
  measured-IsMeasured parse_time cfg c r now (some memory) samples e =
      let bounds = memory_of_bounds r.stats.memory_stats memory e in
      with_report-IsMeasured (base_snapshot cfg c r now true) r.stats r.inspect.host_config memory _
        _ (bounds.0, bounds.1) refl refl

  snapshot-IsMeasured :
      (parse_time : String → Option ℕ) (cfg : DockerConfig) (c : ContainerSummary)
      (r : CollectedStats) (now : ℕ) (samples : Dict NetworkSample)
      → IsMeasured (snapshot parse_time cfg c r now samples).0
  unfolding snapshot base_snapshot
  snapshot-IsMeasured parse_time cfg c r now samples =
      elim (Bool-cases (is_running c && not r.failed)) [
        | inl up ↦ rw up (
            measured-IsMeasured parse_time cfg c r now (memory_of r.stats.memory_stats) samples
              refl)
        | inr down ↦ rw down (inl refl)
      ]

module _ {F : Type 0} (fl : Float64 F) where
  snapshots-IsMeasured :
      (cfg : DockerConfig) (engine : Engine) (n : ℕ) (cs : List ContainerSummary)
      (samples : Dict NetworkSample)
      → All (IsMeasured ⦃fl = fl⦄) (snapshots ⦃fl = fl⦄ cfg engine n cs samples).0
  unfolding snapshots
  snapshots-IsMeasured cfg engine n [] samples = tt
  snapshots-IsMeasured cfg engine n (c ∷ cs) samples =
      let r = gather_container (engine.answers n) c in
      (
        snapshot-IsMeasured ⦃fl = fl⦄ engine.parse_time cfg c r engine.now samples,
        snapshots-IsMeasured cfg engine (n + 1) cs
            (snapshot ⦃fl = fl⦄ engine.parse_time cfg c r engine.now samples).1,
      )

module _ {F : Type 0} ⦃fl : Float64 F⦄ where
  listed-IsMeasured :
      (cfg : DockerConfig) (engine : Engine) (r : Option (List ContainerSummary))
      (samples : Dict NetworkSample) (shown : List (Snapshot F))
      → (collect_from cfg engine r samples).0 ≡ ok shown
      → All IsMeasured shown
  listed-IsMeasured cfg engine none samples shown e = cc
  listed-IsMeasured cfg engine (some containers) samples shown e =
      let chosen = sort_containers (selected_containers containers cfg.include_all) in
      let same : (snapshots {F = F} cfg engine 0 chosen samples).0 ≡ shown = cc in
      rw⁻¹ same (snapshots-IsMeasured fl cfg engine 0 chosen samples)

  -- Every snapshot of a collection that succeeds is offline, or has at least one core, a positive
  -- memory, and totals that agree between its basic info and its report with nothing used beyond them.
  pub collect-IsMeasured :
      (cfg : DockerConfig) (engine : Engine) (samples : Dict NetworkSample)
      (shown : List (Snapshot F))
      → (collect cfg engine samples).0 ≡ ok shown
      → All IsMeasured shown
  unfolding collect
  collect-IsMeasured cfg engine samples shown e = listed-IsMeasured cfg engine _ samples shown e
