-- ===== src/Windows/Collect.antt =====
-- providers/windowsssh/windowsssh.go: `Collect` and `decodeCollectorOutput`.
pub mod History
use Prim.Native.Char.{code}
use komari_bridge.Base.{
  ℕ, String, not, ◌&&◌, Option, none, some, get_or, List, [], ◌∷◌, ◌++◌, eqb, if◌then◌else◌, Result,
  ok, err,
}
use komari_bridge.Base.Int.{ℤ}
use komari_bridge.Base.Time.{time_sub}
use komari_bridge.Base.Floats.{Float64}
use komari_bridge.Model.{Snapshot}
use komari_bridge.Ssh.Connection.{Remote, RunError, close_locked, run_with_reconnect}
use komari_bridge.Ssh.Counters.{NetworkCounters, rates}
use komari_bridge.Windows.Report.{
  WindowsReport, WslReport, CollectorOutput, ReportError, validate_windows_report,
}
use komari_bridge.Windows.Probe.{GpuCache, Probe, stabilize_all, host_probe}
use komari_bridge.Windows.Provider.{Provider, WslHistory, State}
use komari_bridge.Windows.Snapshot.{wsl_snapshots}
use komari_bridge.Windows.Host.{host_snapshot}

pub data CollectError : Type 0 where
  run_failed : RunError → CollectError
  decode_failed : CollectError
  report_invalid : ReportError → CollectError
  gpu_collection_failed : CollectError

pub record Host (F : Type 0) : Type 0 where
  pub remote : Remote
  pub decode : String → Option (CollectorOutput F)

-- The output from its first brace on, and `none` where it has none.
unfoldable pub from_brace : String → Option String
from_brace String.[] = none
from_brace (String.◌∷◌ c s) =
    let rest = from_brace s in if eqb (code c) b'{' then some (String.◌∷◌ c s) else rest

-- The login shell may print before the JSON.
unfoldable pub decode_collector_output : {F : Type 0} → Host F → String → Option (CollectorOutput F)
unfolding from_brace
decode_collector_output host output = host.decode (get_or (from_brace output) output)

abbrev Collection : Type 0 → Type 0
Collection F = Result CollectError (List (Snapshot F)) × State F

module _ {F : Type 0} ⦃fl : Float64 F⦄ where
  abbrev checked : Provider → WindowsReport F → Result ReportError (Unit {0})
  checked p raw = if p.emit_host then validate_windows_report raw else ok tt

  abbrev stabilized :
      Provider → ℕ → List (WslReport F) → GpuCache F → List (WslReport F) × GpuCache F
  stabilized p now ds cache =
      if p.cfg.enable_nvidia then stabilize_all now ds cache else (ds, cache)

  abbrev host_part : Provider → ℕ → WindowsReport F → ℤ × ℤ → Probe F → List (Snapshot F)
  host_part p now raw speed probe =
      if p.emit_host then host_snapshot p now raw speed probe ∷ [] else []

  abbrev wsl_part : Provider → ℕ → List (WslReport F) → WslHistory → List (Snapshot F) × WslHistory
  wsl_part p now ds h = if p.cfg.discover_wsl then wsl_snapshots p now ds h else ([], h)

  -- What the provider keeps of an output once it is checked: the cache of the probes and the
  -- counters.
  abbrev remembered : ℕ → WindowsReport F → GpuCache F → State F → State F
  remembered now raw cache st = record st {
    previous_net = record { up = raw.network_up; down = raw.network_down };
    previous_at = now;
    wsl_gpus = cache;
  }

  unfoldable pub after_check :
      Provider → ℕ → CollectorOutput F → Result ReportError (Unit {0}) → State F → Collection F
  unfolding stabilize_all host_probe rates time_sub host_snapshot wsl_snapshots
  after_check p now raw (err e) st = (err (report_invalid e), st)
  after_check p now raw (ok _) st =
      let wsl = stabilized p now raw.wsl st.wsl_gpus in
      let net : NetworkCounters = record {
        up = raw.windows.network_up;
        down = raw.windows.network_down;
      } in
      let speed = rates fl net st.previous_net (time_sub now st.previous_at) in
      let probe = host_probe p.cfg.enable_nvidia raw.windows wsl.0 in
      let st' = remembered now raw.windows wsl.1 st in
      let shown = wsl_part p now wsl.0 st.wsl in
      if p.emit_host && p.cfg.enable_nvidia && not probe.gpu_ok
      then (err gpu_collection_failed, st')
      else (ok (host_part p now raw.windows speed probe ++ shown.0), record st' { wsl = shown.1 })

  unfoldable pub after_decode : Provider → ℕ → Option (CollectorOutput F) → State F → Collection F
  unfolding after_check validate_windows_report
  after_decode p now none st = (err decode_failed, st)
  after_decode p now (some raw) st = after_check p now raw (checked p raw.windows) st

  unfoldable pub after_run : Host F → Provider → ℕ → Result RunError String → State F → Collection F
  unfolding after_decode decode_collector_output close_locked
  after_run host p now (err e) st =
      (err (run_failed e), record st { session = close_locked st.session })
  after_run host p now (ok output) st = after_decode p now (decode_collector_output host output) st

  unfoldable pub collect : Host F → Provider → ℕ → State F → Collection F
  unfolding after_run run_with_reconnect
  collect host p now st =
      let ran = run_with_reconnect host.remote st.session in
      after_run host p now ran.0 (record st { session = ran.1 })
