-- ===== src/Windows/Report.antt =====
-- providers/windowsssh/windowsssh.go: the collector's output, `validateWindowsReport` and
-- `validateWSLData`.
use komari_bridge.Base.{
  ℕ, ◌≤◌, ◌<◌, ◌≡◌, String, Bool, not, ◌&&◌, ◌||◌, Option, List, eqb, ltb, arith, Result, ok,
  fail_if, ◌>>◌,
}
use komari_bridge.Base.Int.{ℤ, pos, ltb_ℤ, leb_ℤ, ◌<ℤ◌}
use komari_bridge.Base.Dict.{Dict}
use komari_bridge.Base.Text.{is_blank}
use komari_bridge.Model.{DiskMount, GpuDevice}
use komari_bridge.Ssh.Counters.{CpuCounters, NetworkCounters}
use komari_bridge.Linux.Report.{kilobytes, has_key}
use komari_bridge.Bridge.Validate.Sound.{IsUsage}

pub record WindowsReport (F : Type 0) : Type 0 where
  pub cpu_name : String
  pub cpu_cores : ℤ
  pub cpu_physical_cores : ℤ
  pub arch : String
  pub os : String
  pub kernel : String
  pub cpu_usage : F
  pub memory_total : ℤ
  pub memory_free : ℤ
  pub disk_total : ℤ
  pub disk_free : ℤ
  pub disks : List DiskMount
  pub network_up : ℕ
  pub network_down : ℕ
  pub uptime : ℤ
  pub processes : ℤ
  pub gpus : List (GpuDevice F)
  pub gpu_ok : Bool

pub record WslData (F : Type 0) : Type 0 where
  pub cpu_name : String
  pub cpu_cores : ℤ
  pub cpu_physical_cores : ℤ
  pub arch : String
  pub os : String
  pub kernel : String
  pub cpu : CpuCounters
  pub memory : Dict ℕ
  pub load : List F
  pub disk_total : ℤ
  pub disk_used : ℤ
  pub disks : List DiskMount
  pub network : NetworkCounters
  pub uptime : ℤ
  pub processes : ℤ
  pub gpus : List (GpuDevice F)
  pub gpu_ok : Bool

pub record WslReport (F : Type 0) : Type 0 where
  pub guid : String
  pub name : String
  pub version : ℤ
  pub base_path : String
  pub online : Bool
  pub contents : Option (WslData F)

pub record CollectorOutput (F : Type 0) : Type 0 where
  pub windows : WindowsReport F
  pub wsl : List (WslReport F)

pub data ReportError : Type 0 where
  invalid_cpu no_system_identity invalid_memory invalid_disk invalid_uptime gpu_failed : ReportError

module _ {F : Type 0} where
  unfoldable pub validate_windows_report : WindowsReport F → Result ReportError (Unit {0})
  unfolding is_blank
  validate_windows_report raw = do
    fail_if (is_blank raw.cpu_name || leb_ℤ raw.cpu_cores (pos 0)) invalid_cpu
    fail_if (is_blank raw.arch || is_blank raw.os || is_blank raw.kernel) no_system_identity
    fail_if
        (leb_ℤ raw.memory_total (pos 0)
          || ltb_ℤ raw.memory_free (pos 0)
          || ltb_ℤ raw.memory_total raw.memory_free)
        invalid_memory
    fail_if
        (leb_ℤ raw.disk_total (pos 0)
          || ltb_ℤ raw.disk_free (pos 0)
          || ltb_ℤ raw.disk_total raw.disk_free)
        invalid_disk
    fail_if (leb_ℤ raw.uptime (pos 0)) invalid_uptime

  unfoldable pub validate_wsl_data : WslData F → Bool → Result ReportError (Unit {0})
  unfolding is_blank kilobytes has_key
  validate_wsl_data raw require_gpu = do
    fail_if (is_blank raw.cpu_name || leb_ℤ raw.cpu_cores (pos 0) || eqb raw.cpu.total 0)
        invalid_cpu
    fail_if
        (not (has_key "MemTotal" raw.memory)
          || eqb (kilobytes "MemTotal" raw.memory) 0
          || ltb (kilobytes "MemTotal" raw.memory) (kilobytes "MemAvailable" raw.memory))
        invalid_memory
    fail_if
        (leb_ℤ raw.disk_total (pos 0)
          || ltb_ℤ raw.disk_used (pos 0)
          || ltb_ℤ raw.disk_total raw.disk_used)
        invalid_disk
    fail_if
        (is_blank raw.arch || is_blank raw.os || is_blank raw.kernel || leb_ℤ raw.uptime (pos 0))
        no_system_identity
    fail_if (require_gpu && not raw.gpu_ok) gpu_failed

  pub record IsWindowsReport (raw : WindowsReport F) : Type 0 where
    pub memory_total : pos 0 <ℤ raw.memory_total
    pub memory_free : IsUsage raw.memory_total raw.memory_free
    pub disk_total : pos 0 <ℤ raw.disk_total
    pub disk_free : IsUsage raw.disk_total raw.disk_free
    pub uptime : pos 0 <ℤ raw.uptime

  pub validate_windows_report_sound :
      (raw : WindowsReport F) → validate_windows_report raw ≡ ok tt → IsWindowsReport raw
  unfolding validate_windows_report
  validate_windows_report_sound raw h = ground arith

  pub record IsWslData (raw : WslData F) : Type 0 where
    pub memory_total : 0 < kilobytes "MemTotal" raw.memory
    pub available : kilobytes "MemAvailable" raw.memory ≤ kilobytes "MemTotal" raw.memory
    pub disk_total : pos 0 <ℤ raw.disk_total
    pub disk : IsUsage raw.disk_total raw.disk_used
    pub uptime : pos 0 <ℤ raw.uptime

  pub validate_wsl_data_sound :
      (raw : WslData F) (require_gpu : Bool)
      → validate_wsl_data raw require_gpu ≡ ok tt
      → IsWslData raw
  unfolding validate_wsl_data
  validate_wsl_data_sound raw require_gpu h = ground arith
