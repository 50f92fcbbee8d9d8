-- ===== src/Linux/Snapshot/Sound.antt =====
-- What the snapshots of a Linux host guarantee.
use komari_bridge.Base.{ℕ, ◌<◌, ◌≡◌, refl, false, [], ◌∷◌, ok, arith, ◌^◌, String}
use komari_bridge.Base.Floats.{Float64}
use komari_bridge.Bridge.Validate.Sound.{IsUsage, IsTotalled}
use komari_bridge.Config.{is_empty}
use komari_bridge.Ssh.Counters.{clamp_used-IsUsage, bytes_of, bytes_of-pos}
use komari_bridge.Linux.Report.{
  RemoteReport, kilobytes, validate_remote_report, validate_remote_report_sound,
}
use komari_bridge.Linux.Provider.{Provider, State, metric_targets, host_identity}
use komari_bridge.Linux.Snapshot.{memory_usage, basic_info_of, report_of, snapshot_of}

-- Where a provider owns the metrics of a resource, it is that resource that its snapshots describe.
pub metric_targets-eq :
    (p : Provider)
    → p.slurm_only ≡ false
    → is_empty p.cfg.attach_to.source_type ≡ false
    → metric_targets p ≡ host_identity p ∷ []
unfolding metric_targets host_identity
metric_targets-eq p whole attached = ground arith

module _ {F : Type 0} ⦃fl : Float64 F⦄ where
  memory_usage-IsUsage :
      (total free : String) (raw : RemoteReport F)
      → kilobytes total raw.memory < 2 ^ 53
      → IsUsage (memory_usage total free raw).total (memory_usage total free raw).used
  memory_usage-IsUsage total free raw small =
      clamp_used-IsUsage (bytes_of (kilobytes total raw.memory))
        (bytes_of (kilobytes free raw.memory))
        (rw (bytes_of-pos (kilobytes total raw.memory) small) (omega arith))

  -- The snapshot made of a report that the check accepts has totals that agree between its basic info
  -- and its report, a positive memory, and no use of memory, swap or disk beyond its total, if memory
  -- and swap are below 2^53 kilobytes each.
  pub snapshot_of-IsTotalled :
      (p : Provider) (now : ℕ) (raw : RemoteReport F) (st : State)
      → validate_remote_report raw p.cfg.enable_nvidia ≡ ok tt
      → kilobytes "MemTotal" raw.memory < 2 ^ 53
      → kilobytes "SwapTotal" raw.memory < 2 ^ 53
      → IsTotalled (snapshot_of p now raw st).basic_info (snapshot_of p now raw st).report
  unfolding snapshot_of basic_info_of report_of
  snapshot_of-IsTotalled p now raw st valid memory swap =
      let sound = validate_remote_report_sound raw p.cfg.enable_nvidia valid in
      record {
        memory_known =
            rw (bytes_of-pos (kilobytes "MemTotal" raw.memory) memory)
              (omega (arith, sound.memory_total));
        memory_total = refl;
        memory = memory_usage-IsUsage "MemTotal" "MemAvailable" raw memory;
        swap_total = refl;
        swap = memory_usage-IsUsage "SwapTotal" "SwapFree" raw swap;
        disk_total = refl;
        disk = sound.disk;
      }
