-- ===== src/Linux/Collect.antt =====
-- providers/linuxssh/linuxssh.go: `Collect`.
pub mod History
pub mod Store
pub mod Written
use komari_bridge.Base.{
  ℕ, String, ◌<>◌, Bool, true, false, not, ◌&&◌, ◌||◌, Option, none, some, List, [], ◌∷◌, length,
  if◌then◌else◌, Result, ok, err,
}
use komari_bridge.Base.Int.{ℤ, pos}
use komari_bridge.Base.Words.{to_int64}
use komari_bridge.Base.Time.{time_sub}
use komari_bridge.Base.Floats.{Float64}
use komari_bridge.Base.Text.{first_non_empty}
use komari_bridge.Model.{
  Identity, BasicInfo, LoadReport, Report, Snapshot, Usage, empty_basic_info, empty_report,
}
use komari_bridge.Config.{LinuxSshConfig, ResourceIdentity, is_empty}
use komari_bridge.Slurm.{Clusters, ClusterSnapshot, set}
use komari_bridge.Ssh.Connection.{Remote, RunError, Session, close_locked, run}
use komari_bridge.Ssh.Counters.{
  CpuCounters, NetworkCounters, clamp_used, bytes_of, counter_percent, rates,
}
use komari_bridge.Ssh.Gpus.{format_gpu_name, gpu_report}
use komari_bridge.Linux.Report.{RemoteReport, ReportError, kilobytes, validate_remote_report}
use komari_bridge.Linux.Cluster.{cluster_of, cluster_message, unavailable}
use komari_bridge.Linux.Provider.{Provider, State, keeps_cluster}
use komari_bridge.Linux.Snapshot.{snapshot_of}

pub data CollectError : Type 0 where
  run_failed : RunError → CollectError
  decode_failed : CollectError
  report_invalid : ReportError → CollectError

-- The remote host, the JSON decoder, and the text of an error.
pub record Host (F : Type 0) : Type 0 where
  pub remote : Remote
  pub decode : String → Option (RemoteReport F)
  pub error_text : RunError → String

unfoldable pub store_cluster : Provider → ClusterSnapshot → State → State
unfolding set
store_cluster p c st =
    if keeps_cluster p then record st { clusters = set p.cfg.id c st.clusters } else st

unfoldable pub mark_slurm_unavailable : Provider → ℕ → String → State → State
unfolding store_cluster unavailable
mark_slurm_unavailable p now message st = store_cluster p (unavailable p.cfg.id now message) st

abbrev Collection : Type 0 → Type 0
Collection F = Result CollectError (List (Snapshot F)) × State

module _ {F : Type 0} ⦃fl : Float64 F⦄ where
  -- A provider that only feeds the Slurm store does not check the report.
  abbrev checked : Provider → RemoteReport F → Result ReportError (Unit {0})
  checked p raw = if p.slurm_only then ok tt else validate_remote_report raw p.cfg.enable_nvidia

  abbrev remember : ℕ → RemoteReport F → State → State
  remember now raw st = record st {
    previous_cpu = raw.cpu;
    previous_net = raw.network;
    previous_at = now;
  }

  unfoldable pub after_check :
      Provider → ℕ → RemoteReport F → Result ReportError (Unit {0}) → State → Collection F
  unfolding snapshot_of store_cluster cluster_of
  after_check p now raw (err e) st = (err (report_invalid e), st)
  after_check p now raw (ok _) st = (
    ok (if p.slurm_only then [] else snapshot_of p now raw st ∷ []),
    store_cluster p (cluster_of p.cfg.id now raw.slurm) (remember now raw st),
  )

  unfoldable pub after_decode : Provider → ℕ → Option (RemoteReport F) → State → Collection F
  unfolding after_check mark_slurm_unavailable validate_remote_report
  after_decode p now none st =
      (err decode_failed, mark_slurm_unavailable p now "collector output was invalid" st)
  after_decode p now (some raw) st = after_check p now raw (checked p raw) st

  unfoldable pub after_run : Host F → Provider → ℕ → Result RunError String → State → Collection F
  unfolding after_decode mark_slurm_unavailable close_locked
  after_run host p now (err e) st = (
    err (run_failed e),
    mark_slurm_unavailable p now ("SSH collection failed: " <> host.error_text e)
        (record st { session = close_locked st.session }),
  )
  after_run host p now (ok output) st = after_decode p now (host.decode output) st

  unfoldable pub collect : Host F → Provider → ℕ → State → Collection F
  unfolding after_run run
  collect host p now st =
      let ran = run host.remote st.session in
      after_run host p now ran.0 (record st { session = ran.1 })
