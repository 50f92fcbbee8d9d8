-- ===== src/Windows/Probe.antt =====
-- providers/windowsssh/windowsssh.go: `stabilizeWSLGPU`, and the GPUs that a Windows host reports.
use komari_bridge.Base.{
  ℕ, ◌+◌, ◌≡◌, ltb, arith, String, ◌<>◌, eq_refl, Bool, true, false, not, ◌&&◌, ◌||◌, Option, none,
  some, List, [], ◌∷◌, if◌then◌else◌,
}
use komari_bridge.Base.Dict.{Dict, lookup, insert, lookup-insert}
use komari_bridge.Base.Time.{minute, is_older, is_older_iff}
use komari_bridge.Model.{GpuDevice}
use komari_bridge.Windows.Report.{WindowsReport, WslReport, WslData}

-- `previousWGPU`: the devices of the last probe that succeeded, and its time.
abbrev pub GpuCache : Type 0 → Type 0
GpuCache F = Dict (List (GpuDevice F) × ℕ)

module _ {F : Type 0} where
  -- The data with the devices of the last success, if that is at most a minute old.
  abbrev pub restored : ℕ → WslData F → Option (List (GpuDevice F) × ℕ) → Option (WslData F)
  restored now contents none = none
  restored now contents (some (gpus, saved_at)) =
      if is_older now saved_at minute
      then none
      else some (record contents { gpus = gpus; gpu_ok = true })

  -- The data that is kept, `none` where the distribution goes offline, and the cache.
  unfoldable pub stabilize_wsl_gpu :
      ℕ → String → WslData F → GpuCache F → Option (WslData F) × GpuCache F
  unfolding lookup insert
  stabilize_wsl_gpu now guid contents cache =
      if contents.gpu_ok
      then (some contents, insert guid (contents.gpus, now) cache)
      else (restored now contents (lookup guid cache), cache)

  abbrev pub offline : WslReport F → WslReport F
  offline d = record d { online = false; contents = none }

  abbrev with_contents : WslReport F → Option (WslData F) → WslReport F
  with_contents d none = offline d
  with_contents d (some contents) = record d { contents = some contents }

  abbrev pub stabilize_present :
      ℕ → WslReport F → Option (WslData F) → GpuCache F → WslReport F × GpuCache F
  stabilize_present now d none cache = (d, cache)
  stabilize_present now d (some contents) cache =
      let done = stabilize_wsl_gpu now d.guid contents cache in (with_contents d done.0, done.1)

  -- The loop over the distributions that are online.
  unfoldable pub stabilize_all :
      ℕ → List (WslReport F) → GpuCache F → List (WslReport F) × GpuCache F
  unfolding stabilize_wsl_gpu
  stabilize_all now [] cache = ([], cache)
  stabilize_all now (d ∷ ds) cache =
      let first = if d.online then stabilize_present now d d.contents cache else (d, cache) in
      let rest = stabilize_all now ds first.1 in (first.0 ∷ rest.0, rest.1)

-- A probe that failed reports the devices of the last one that succeeded, under the same
-- distribution, for a minute, and the distribution goes offline after that.
pub stabilize_wsl_gpu_twice :
    {F : Type 0} (now later : ℕ) (guid : String) (before after : WslData F) (cache : GpuCache F)
    → before.gpu_ok ≡ true
    → after.gpu_ok ≡ false
    → (stabilize_wsl_gpu later guid after (stabilize_wsl_gpu now guid before cache).1).0 ≡ (
        if ltb (now + minute) later
        then none
        else some (record after { gpus = before.gpus; gpu_ok = true }))
unfolding stabilize_wsl_gpu
stabilize_wsl_gpu_twice now later guid before after cache worked failed = ground (
  arith,
  lookup-insert guid guid (before.gpus, now) cache,
  eq_refl guid,
  is_older_iff later now minute (omega arith),
)

-- Devices, whether a probe succeeded, and where they come from.
pub record Probe (F : Type 0) : Type 0 where
  pub gpus : List (GpuDevice F)
  pub gpu_ok : Bool
  pub source : String

module _ {F : Type 0} where
  -- The first distribution that is online, whose probe succeeded and that has a device.
  abbrev pub has_gpus : Option (WslData F) → Bool
  has_gpus none = false
  has_gpus (some contents) = elim contents.gpus [ [] ↦ false | _ ∷ _ ↦ contents.gpu_ok ]

  abbrev gpus_of : Option (WslData F) → List (GpuDevice F)
  gpus_of none = []
  gpus_of (some contents) = contents.gpus

  unfoldable pub wsl_probe : List (WslReport F) → Probe F → Probe F
  wsl_probe [] windows = windows
  wsl_probe (d ∷ ds) windows =
      let rest = wsl_probe ds windows in
      if d.online && has_gpus d.contents
      then record { gpus = gpus_of d.contents; gpu_ok = true; source = "wsl:" <> d.name }
      else rest

  abbrev no_devices : List (GpuDevice F) → Bool
  no_devices [] = true
  no_devices (_ ∷ _) = false

  -- The host's own devices, or those that a distribution sees.
  unfoldable pub host_probe : Bool → WindowsReport F → List (WslReport F) → Probe F
  unfolding wsl_probe
  host_probe enable_nvidia raw wsl =
      let windows : Probe F = record { gpus = raw.gpus; gpu_ok = raw.gpu_ok; source = "windows" } in
      if enable_nvidia && (not raw.gpu_ok || no_devices raw.gpus)
      then wsl_probe wsl windows
      else windows
