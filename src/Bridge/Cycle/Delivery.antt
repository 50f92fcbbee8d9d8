-- ===== src/Bridge/Cycle/Delivery.antt =====
-- What a cycle without an error has delivered at its end.
use komari_bridge.Base.{◌≡◌, refl, inl, inr, Bool-cases, false, String, List, [], ◌∷◌, All, ok}
use komari_bridge.Base.Floats.{Float64}
use komari_bridge.Buildinfo.{Build}
use komari_bridge.Model.{Snapshot, Binding}
use komari_bridge.Komari.{rpc_call, report}
use komari_bridge.Bridge.Topology.{with_version}
use komari_bridge.Bridge.Gather.{Collected}
use komari_bridge.Bridge.Process.{Env, Reporter, process}
use komari_bridge.Bridge.Process.Bindings.{IsBound, process-HasClient}
use komari_bridge.Bridge.Process.Delivery.{process-IsServed}
use komari_bridge.Bridge.Process.Stable.{process-IsBound, HasSent, process-HasSent}
use komari_bridge.Bridge.Cycle.{
  Runner, submit_checked, submit, submit_all, to_submit, gathered, cycle,
}
use komari_bridge.Bridge.Cycle.Sound.{submit_all-keeps}
use komari_bridge.Bridge.Cycle.Errors.{IsProcessed, AllProcessed, HasCollected, cycle_quiet}

module _ {F : Type 0} (env : Env F) where
  -- The resource has a client, and, if it is online, its report was sent with that client's token.
  pub data IsDone (s : Snapshot F) (r : Reporter F) : Type 0 where
    registered : (b : Binding) → s.online ≡ false → IsBound env s.identity b r → IsDone s r
    reported :
        (b : Binding) (id : String)
        → IsBound env s.identity b r
        → HasSent (rpc_call b.token id (report s.report)) r
        → IsDone s r

  process-IsDone :
      (s : Snapshot F) (r : Reporter F) → (process env s r).0 ≡ ok tt → IsDone s (process env s r).1
  process-IsDone s r h = elim (Bool-cases s.online) [
    | inl online ↦
        let (b, bound, delivered) = process-IsServed env s r online h in
        reported b delivered.id bound
          (record { later = []; earlier = delivered.earlier; here = delivered.last })
    | inr offline ↦ let client = process-HasClient env s r h in registered client.0 offline client.1
  ]

module _ {F : Type 0} ⦃fl : Float64 F⦄ (env : Env F) (build : Build) where
  submit_all-IsDone :
      (s : Snapshot F) (ss : List (Snapshot F)) (r : Reporter F)
      → IsDone env s r
      → IsDone env s (submit_all env build ss r).1
  submit_all-IsDone s ss r (registered b offline bound) = registered b offline (
      submit_all-keeps env build (IsBound env s.identity b)
        (λ t v. process-IsBound env s.identity b t) (λ r n h. h) ss r bound)
  submit_all-IsDone s ss r (reported b id bound sent) =
      let q = rpc_call b.token id (report s.report) in
      reported b id
        (submit_all-keeps env build (IsBound env s.identity b)
          (λ t v. process-IsBound env s.identity b t) (λ r n h. h) ss r bound)
        (submit_all-keeps env build (HasSent q) (λ t v. process-HasSent env q t)
          (λ r n h. record { later = h.later; earlier = h.earlier; here = h.here }) ss r sent)

  submit-eq :
      (s : Snapshot F) (r : Reporter F)
      → IsProcessed env build s r
      → (submit env build s r).1 ≡ (process env (with_version build s) r).1
  unfolding submit submit_checked
  submit-eq s r h = rw h.valid refl

  all-IsDone :
      (ss : List (Snapshot F)) (r : Reporter F)
      → AllProcessed env build ss r
      → All (λ (s : Snapshot F). IsDone env (with_version build s) (submit_all env build ss r).1) ss
  unfolding submit_all
  all-IsDone [] r h = tt
  all-IsDone (s ∷ ss) r h =
      let first = process-IsDone env (with_version build s) r h.0.processed in
      (
        submit_all-IsDone (with_version build s) ss (submit env build s r).1
            (rw (submit-eq s r h.0) first),
        all-IsDone ss (submit env build s r).1 h.1,
      )

  -- At the end of a cycle that returns no error, every provider has returned its snapshots, every
  -- merged snapshot's resource has a client in the table, and the report of every merged snapshot that
  -- is online was sent with the token of that client.
  pub cycle-IsDone :
      (order : List (Snapshot F) → List (Snapshot F)) (authorities : List String)
      (collected : List (Collected F)) (r : Runner F)
      → (cycle env build order authorities collected r).0 ≡ []
      → let g = gathered env build authorities collected r in
        All HasCollected collected
        × All
            (λ (s : Snapshot F).
              IsDone env
                (with_version build s)
                (cycle env build order authorities collected r).1.reporter)
            (to_submit env build order g.merged)
  unfolding cycle
  cycle-IsDone order authorities collected r h =
      let quiet = cycle_quiet env build order authorities collected r h in
      (quiet.0, all-IsDone _ _ quiet.1)
