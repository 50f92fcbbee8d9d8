-- ===== src/Bridge/Cycle/Sound.antt =====
-- What a whole cycle guarantees of the requests it sends and of the table it leaves.
use komari_bridge.Base.{
  ◌⊎◌, inl, inr, false, ◌≡◌, refl, true, List, [], ◌∷◌, String, Result, ok, err,
}
use komari_bridge.Base.Exec.{Keeps}
use komari_bridge.Base.Floats.{Float64}
use komari_bridge.Buildinfo.{Build}
use komari_bridge.Model.{Snapshot}
use komari_bridge.Bridge.Validate.{Invalid, validate_snapshot}
use komari_bridge.Bridge.Validate.Sound.{IsReportable, validate_snapshot_iff}
use komari_bridge.Bridge.Process.{Env, Reporter, process}
use komari_bridge.Bridge.Process.Requests.{AllSound, process-AllSound}
use komari_bridge.Bridge.Process.Constraints.{OnTable, process-OnTable}
use komari_bridge.Bridge.Topology.{with_version}
use komari_bridge.Bridge.Gather.{Collected}
use komari_bridge.Bridge.Cycle.{
  Runner, submit_checked, submit, submit_all, to_submit, gathered, cycle,
}

when_online :
    {F : Type 0} ⦃fl : Float64 F⦄ (s : Snapshot F)
    → (s.online ≡ false) ⊎ IsReportable s.basic_info s.report
    → s.online ≡ true
    → IsReportable s.basic_info s.report
when_online s (inl off) on = cc
when_online s (inr sound) on = sound

module _ {F : Type 0} ⦃fl : Float64 F⦄ (env : Env F) (build : Build) where
  -- What the steps of `process` on every valid snapshot keep, a cycle keeps.
  module _ (P : Reporter F → Type 0)
      (keeps : (s : Snapshot F) → validate_snapshot s ≡ ok tt → Keeps P (process env s))
      (ticked : (r : Reporter F) (n : _) → P r → P (record r { ticks = n })) where
    submit_checked-keeps :
        (s : Snapshot F) (v : Result Invalid (Unit {0})) (r : Reporter F)
        → validate_snapshot s ≡ v
        → P r
        → P (submit_checked env build s v r).1
    unfolding submit_checked
    submit_checked-keeps s (err e) r v h = h
    submit_checked-keeps s (ok _) r v h = (keeps s v).at r h

    pub submit-keeps : (s : Snapshot F) (r : Reporter F) → P r → P (submit env build s r).1
    unfolding submit
    submit-keeps s r h =
        let v = with_version build s in submit_checked-keeps v (validate_snapshot v) r refl h

    pub submit_all-keeps :
        (ss : List (Snapshot F)) (r : Reporter F) → P r → P (submit_all env build ss r).1
    unfolding submit_all
    submit_all-keeps [] r h = h
    submit_all-keeps (s ∷ ss) r h =
        submit_all-keeps ss (submit env build s r).1 (submit-keeps s r h)

    pub cycle-keeps :
        (order : _) (authorities : List String) (collected : List (Collected F)) (r : Runner F)
        → P r.reporter
        → P (cycle env build order authorities collected r).1.reporter
    unfolding cycle
    cycle-keeps order authorities collected r h =
        let g = gathered env build authorities collected r in
        submit_all-keeps (to_submit env build order g.merged)
          (record r.reporter { ticks = g.ticks }) (ticked r.reporter g.ticks h)

  pub submit-AllSound :
      (s : Snapshot F) (r : Reporter F) → AllSound env r → AllSound env (submit env build s r).1
  submit-AllSound =
      submit-keeps (AllSound env)
        (λ s v. process-AllSound env s (when_online s ((validate_snapshot_iff s).0 v).1))
        (λ r n h. h)

  pub submit-OnTable :
      (s : Snapshot F) (r : Reporter F) → OnTable env r → OnTable env (submit env build s r).1
  submit-OnTable = submit-keeps (OnTable env) (λ s v. process-OnTable env s) (λ r n h. h)

  -- If the reports sent so far passed the checks, so do those sent by a cycle: whatever the
  -- providers collect and the server and the database answer, in any order of the merged snapshots,
  -- no report is sent whose totals, percentages, counters, mounts and GPUs are not within bounds.
  pub cycle-AllSound :
      (order : List (Snapshot F) → List (Snapshot F)) (authorities : List String)
      (collected : List (Collected F)) (r : Runner F)
      → AllSound env r.reporter
      → AllSound env (cycle env build order authorities collected r).1.reporter
  cycle-AllSound =
      cycle-keeps (AllSound env)
        (λ s v. process-AllSound env s (when_online s ((validate_snapshot_iff s).0 v).1))
        (λ r n h. h)

  -- A cycle keeps the constraints of the table: one row for each identity, and no two rows with the
  -- same Komari UUID, whichever accesses to the database fail.
  pub cycle-OnTable :
      (order : List (Snapshot F) → List (Snapshot F)) (authorities : List String)
      (collected : List (Collected F)) (r : Runner F)
      → OnTable env r.reporter
      → OnTable env (cycle env build order authorities collected r).1.reporter
  cycle-OnTable = cycle-keeps (OnTable env) (λ s v. process-OnTable env s) (λ r n h. h)
