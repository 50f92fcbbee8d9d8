-- ===== src/Windows/Sound.antt =====
-- What the snapshots of a Windows host and of its WSL distributions guarantee.
use komari_bridge.Base.{
  if◌then◌else◌, ℕ, ◌<◌, ◌≡◌, refl, ◌⊎◌, inl, inr, Bool-cases, Bool, true, false, Option, none,
  some, List, [], ◌∷◌, All, Result, ok, err, arith, ◌^◌, String,
}
use komari_bridge.Base.Int.{ℤ}
use komari_bridge.Base.Floats.{Float64}
use komari_bridge.Model.{Snapshot}
use komari_bridge.Bridge.Validate.Sound.{IsUsage, IsTotalled}
use komari_bridge.Ssh.Counters.{clamp_used-IsUsage, bytes_of, bytes_of-pos}
use komari_bridge.Linux.Report.{kilobytes}
use komari_bridge.Windows.Report.{
  WindowsReport, WslReport, WslData, ReportError, validate_windows_report,
  validate_windows_report_sound, IsWslData, validate_wsl_data, validate_wsl_data_sound,
}
use komari_bridge.Windows.Probe.{Probe, offline}
use komari_bridge.Windows.Provider.{Provider, WslHistory}
use komari_bridge.Windows.Snapshot.{
  memory_usage, wsl_info, wsl_report, wsl_with, wsl_snapshot, if_valid, checked_wsl, wsl_snapshots,
}
use komari_bridge.Windows.Host.{host_report, host_snapshot}

module _ {F : Type 0} ⦃fl : Float64 F⦄ where
  -- The snapshot made of a host's report that the check accepts has totals that agree between its
  -- basic info and its report, a positive memory, and no use of memory or disk beyond its total.
  pub host_snapshot-IsTotalled :
      (p : Provider) (now : ℕ) (raw : WindowsReport F) (speed : ℤ × ℤ) (probe : Probe F)
      → validate_windows_report raw ≡ ok tt
      → IsTotalled
          (host_snapshot p now raw speed probe).basic_info
          (host_snapshot p now raw speed probe).report
  unfolding host_snapshot host_report
  host_snapshot-IsTotalled p now raw speed probe valid =
      let sound = validate_windows_report_sound raw valid in
      record {
        memory_known = sound.memory_total;
        memory_total = refl;
        memory =
            clamp_used-IsUsage raw.memory_total raw.memory_free (omega (arith, sound.memory_total));
        swap_total = refl;
        swap = record { used_nonneg = omega arith; used_le = omega arith };
        disk_total = refl;
        disk = clamp_used-IsUsage raw.disk_total raw.disk_free (omega (arith, sound.disk_total));
      }

  -- Memory and swap below 2^53 kilobytes each.
  abbrev IsSmallData : WslData F → Type 0
  IsSmallData contents =
      (kilobytes "MemTotal" contents.memory < 2 ^ 53)
      × (kilobytes "SwapTotal" contents.memory < 2 ^ 53)

  abbrev IsSmallPart : Option (WslData F) → Type 0
  IsSmallPart none = Unit
  IsSmallPart (some contents) = IsSmallData contents

  abbrev pub IsSmall : WslReport F → Type 0
  IsSmall raw = IsSmallPart raw.contents

  abbrev pub IsShown : Snapshot F → Type 0
  IsShown s = (s.online ≡ false) ⊎ IsTotalled s.basic_info s.report

  memory_usage-IsUsage :
      (total free : String) (raw : WslData F)
      → kilobytes total raw.memory < 2 ^ 53
      → IsUsage (memory_usage total free raw).total (memory_usage total free raw).used
  memory_usage-IsUsage total free raw small =
      clamp_used-IsUsage (bytes_of (kilobytes total raw.memory))
        (bytes_of (kilobytes free raw.memory))
        (rw (bytes_of-pos (kilobytes total raw.memory) small) (omega arith))

  wsl_info-IsTotalled :
      (p : Provider) (now : ℕ) (guid : String) (contents : WslData F) (h : WslHistory)
      → IsWslData contents
      → IsSmallData contents
      → IsTotalled (wsl_info p contents) (wsl_report p now guid contents h)
  unfolding wsl_info wsl_report
  wsl_info-IsTotalled p now guid contents h sound (memory, swap) = record {
    memory_known =
        rw (bytes_of-pos (kilobytes "MemTotal" contents.memory) memory)
          (omega (arith, sound.memory_total));
    memory_total = refl;
    memory = memory_usage-IsUsage "MemTotal" "MemAvailable" contents memory;
    swap_total = refl;
    swap = memory_usage-IsUsage "SwapTotal" "SwapFree" contents swap;
    disk_total = refl;
    disk = sound.disk;
  }

  abbrev IsSoundPart : Option (WslData F) → Type 0
  IsSoundPart none = Unit
  IsSoundPart (some contents) = IsWslData contents

  wsl_with-IsShown :
      (p : Provider) (now : ℕ) (raw : WslReport F) (part : Option (WslData F)) (h : WslHistory)
      → (raw.online ≡ false) ⊎ IsSoundPart part
      → IsSmallPart part
      → IsShown (wsl_with p now raw part h).0
  wsl_with-IsShown p now raw none h sound small = inl refl
  wsl_with-IsShown p now raw (some contents) h (inl off) small = rw off (inl refl)
  wsl_with-IsShown p now raw (some contents) h (inr sound) small = elim (Bool-cases raw.online) [
    | inl on ↦ rw on (inr (wsl_info-IsTotalled p now raw.guid contents h sound small))
    | inr off ↦ rw off (inl refl)
  ]

  -- The check takes a distribution offline, or lets it through with sound data.
  data Checked (raw : WslReport F) (part : Option (WslData F)) : WslReport F → Type 0 where
    passed : (raw.online ≡ false) ⊎ IsSoundPart part → Checked raw part raw
    taken_off : Checked raw part (offline raw)

  online_cases :
      (raw : WslReport F) (part : Option (WslData F)) (online : Bool)
      → raw.online ≡ online
      → Checked raw part (if online then offline raw else raw)
  online_cases raw part true e = taken_off
  online_cases raw part false e = passed (inl e)

  valid_cases :
      (raw : WslReport F) (contents : WslData F) (v : Result ReportError (Unit {0}))
      → validate_wsl_data contents false ≡ v
      → Checked raw (some contents) (if_valid raw (some contents))
  valid_cases raw contents (ok _) e =
      rw (if_valid, e) (passed (inr (validate_wsl_data_sound contents false e)))
  valid_cases raw contents (err _) e =
      rw (if_valid, e) (online_cases raw (some contents) raw.online refl)

  if_valid-Checked :
      (raw : WslReport F) (part : Option (WslData F)) → Checked raw part (if_valid raw part)
  if_valid-Checked raw none = passed (inr tt)
  if_valid-Checked raw (some contents) =
      valid_cases raw contents (validate_wsl_data contents false) refl

  Checked-IsShown :
      (p : Provider) (now : ℕ) (raw : WslReport F) (h : WslHistory) {shown : WslReport F}
      → Checked raw raw.contents shown
      → IsSmall raw
      → IsShown (wsl_snapshot p now shown h).0
  unfolding wsl_snapshot
  Checked-IsShown p now raw h (passed sound) small =
      wsl_with-IsShown p now raw raw.contents h sound small
  Checked-IsShown p now raw h taken_off small = inl refl

  -- Every snapshot of a distribution is offline, or has totals that agree, a positive memory, and no
  -- use of memory, swap or disk beyond its total, whatever the distributions report of themselves, if
  -- their memory and swap are below 2^53 kilobytes each.
  pub wsl_snapshots-IsShown :
      (p : Provider) (now : ℕ) (ds : List (WslReport F)) (h : WslHistory)
      → All IsSmall ds
      → All IsShown (wsl_snapshots p now ds h).0
  unfolding wsl_snapshots checked_wsl
  wsl_snapshots-IsShown p now [] h small = tt
  wsl_snapshots-IsShown p now (d ∷ ds) h (first, rest) = (
    Checked-IsShown p now d h (if_valid-Checked d d.contents) first,
    wsl_snapshots-IsShown p now ds (wsl_snapshot p now (checked_wsl d) h).1 rest,
  )
