-- ===== src/Linux/Report.antt =====
-- providers/linuxssh/linuxssh.go: `remoteReport` and `validateRemoteReport`.
use komari_bridge.Base.{
  ℕ, ◌≤◌, ◌<◌, ◌≡◌, String, Bool, true, false, not, ◌&&◌, ◌||◌, is_some, get_or, List, eqb, ltb,
  arith, Result, ok, fail_if, ◌>>◌,
}
use komari_bridge.Base.Int.{ℤ, pos, ltb_ℤ, leb_ℤ, ◌<ℤ◌}
use komari_bridge.Base.Dict.{Dict, lookup}
use komari_bridge.Base.Text.{is_blank}
use komari_bridge.Model.{DiskMount, GpuDevice}
use komari_bridge.Slurm.{Partition, Job}
use komari_bridge.Ssh.Counters.{CpuCounters, NetworkCounters}
use komari_bridge.Bridge.Validate.Sound.{IsUsage}

pub record RemoteSlurm : Type 0 where
  pub available : Bool
  pub controller_up : Bool
  pub node_daemon_up : Bool
  pub partitions : List Partition
  pub jobs : List Job
  pub gpus_configured : ℤ
  pub gpus_allocated : ℤ

pub record RemoteReport (F : Type 0) : Type 0 where
  pub cpu_name : String
  pub cpu_cores : ℤ
  pub cpu_physical_cores : ℤ
  pub arch : String
  pub os : String
  pub kernel : String
  pub cpu : CpuCounters
  pub memory : Dict ℕ
  pub load : List F
  pub disk_total : ℤ
  pub disk_used : ℤ
  pub disks : List DiskMount
  pub network : NetworkCounters
  pub tcp : ℤ
  pub udp : ℤ
  pub uptime : ℤ
  pub processes : ℤ
  pub gpus : List (GpuDevice F)
  pub gpu_ok : Bool
  pub slurm : RemoteSlurm

pub data ReportError : Type 0 where
  invalid_cpu no_memory_total invalid_available_memory invalid_disk : ReportError
  no_system_identity invalid_uptime gpu_failed : ReportError

-- A number of kilobytes from the map, 0 if it is not there.
unfoldable pub kilobytes : String → Dict ℕ → ℕ
unfolding lookup
kilobytes key memory = get_or (lookup key memory) 0

unfoldable pub has_key : String → Dict ℕ → Bool
unfolding lookup
has_key key memory = is_some (lookup key memory)

module _ {F : Type 0} where
  unfoldable pub validate_remote_report : RemoteReport F → Bool → Result ReportError (Unit {0})
  unfolding is_blank
  validate_remote_report raw require_gpu = do
    fail_if (is_blank raw.cpu_name || leb_ℤ raw.cpu_cores (pos 0) || eqb raw.cpu.total 0)
        invalid_cpu
    fail_if (not (has_key "MemTotal" raw.memory) || eqb (kilobytes "MemTotal" raw.memory) 0)
        no_memory_total
    fail_if
        (not (has_key "MemAvailable" raw.memory)
          || ltb (kilobytes "MemTotal" raw.memory) (kilobytes "MemAvailable" raw.memory))
        invalid_available_memory
    fail_if
        (leb_ℤ raw.disk_total (pos 0)
          || ltb_ℤ raw.disk_used (pos 0)
          || ltb_ℤ raw.disk_total raw.disk_used)
        invalid_disk
    fail_if (is_blank raw.arch || is_blank raw.os || is_blank raw.kernel) no_system_identity
    fail_if (leb_ℤ raw.uptime (pos 0)) invalid_uptime
    fail_if (require_gpu && not raw.gpu_ok) gpu_failed

  pub record IsRemoteReport (require_gpu : Bool) (raw : RemoteReport F) : Type 0 where
    pub cpu_name : is_blank raw.cpu_name ≡ false
    pub cores : pos 0 <ℤ raw.cpu_cores
    pub cpu_total : 0 < raw.cpu.total
    pub memory_total : 0 < kilobytes "MemTotal" raw.memory
    pub available_known : has_key "MemAvailable" raw.memory ≡ true
    pub available : kilobytes "MemAvailable" raw.memory ≤ kilobytes "MemTotal" raw.memory
    pub disk_total : pos 0 <ℤ raw.disk_total
    pub disk : IsUsage raw.disk_total raw.disk_used
    pub arch : is_blank raw.arch ≡ false
    pub os : is_blank raw.os ≡ false
    pub kernel : is_blank raw.kernel ≡ false
    pub uptime : pos 0 <ℤ raw.uptime
    pub gpu : (require_gpu && not raw.gpu_ok) ≡ false

  -- A report that the check accepts names the CPU, the architecture, the system and the kernel, has
  -- cores, memory, a disk and an uptime, and uses no more than there is of the memory and the disk.
  pub validate_remote_report_sound :
      (raw : RemoteReport F) (require_gpu : Bool)
      → validate_remote_report raw require_gpu ≡ ok tt
      → IsRemoteReport require_gpu raw
  unfolding validate_remote_report kilobytes has_key
  validate_remote_report_sound raw require_gpu h = ground arith
