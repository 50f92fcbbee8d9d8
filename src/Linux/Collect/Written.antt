-- ===== src/Linux/Collect/Written.antt =====
-- What a collection writes into the store of the clusters, whatever is in it.
use komari_bridge.Base.{
  ℕ, ◌≡◌, refl, String, ◌<>◌, ◌==◌, ◌&&◌, arith, false, Bool-cases, inl, inr, Option, none, some,
  if◌then◌else◌, Result, ok, err,
}
use komari_bridge.Base.Floats.{Float64}
use komari_bridge.Slurm.{Clusters, ClusterSnapshot, set, get}
use komari_bridge.Slurm.Abstract.{get-set}
use komari_bridge.Ssh.Connection.{RunError, Session, run}
use komari_bridge.Linux.Report.{RemoteReport, ReportError, validate_remote_report}
use komari_bridge.Linux.Cluster.{cluster_of, unavailable}
use komari_bridge.Linux.Provider.{Provider, State, keeps_cluster}
use komari_bridge.Linux.Collect.{
  Host, store_cluster, mark_slurm_unavailable, checked, after_check, after_decode, after_run,
  collect,
}

-- One write, if there is one.
abbrev pub put : String → Option ClusterSnapshot → Clusters → Clusters
put id none stored = stored
put id (some c) stored = set id c stored

get-put_other :
    (i id : String) (c : Option ClusterSnapshot) (s : Clusters)
    → (i == id) ≡ false
    → get id (put i c s) ≡ get id s
get-put_other i id none s other = refl
get-put_other i id (some x) s other = rw (get-set i id x s, other) refl

abbrev kept : Provider → ClusterSnapshot → Option ClusterSnapshot
kept p c = if keeps_cluster p then some c else none

clusters-store_cluster :
    (p : Provider) (c : ClusterSnapshot) (st : State)
    → (store_cluster p c st).clusters ≡ put p.cfg.id (kept p c) st.clusters
unfolding store_cluster
clusters-store_cluster p c st = elim (Bool-cases (keeps_cluster p)) [
  | inl keeps ↦ rw keeps refl
  | inr none_kept ↦ rw none_kept refl
]

module _ {F : Type 0} ⦃fl : Float64 F⦄ where
  abbrev checked_writes :
      Provider → ℕ → RemoteReport F → Result ReportError (Unit {0}) → Option ClusterSnapshot
  checked_writes p now raw (err e) = none
  checked_writes p now raw (ok _) = kept p (cluster_of p.cfg.id now raw.slurm)

  abbrev decoded_writes : Provider → ℕ → Option (RemoteReport F) → Option ClusterSnapshot
  decoded_writes p now none = kept p (unavailable p.cfg.id now "collector output was invalid")
  decoded_writes p now (some raw) = checked_writes p now raw (checked p raw)

  abbrev run_writes : Host F → Provider → ℕ → Result RunError String → Option ClusterSnapshot
  run_writes host p now (err e) =
      kept p (unavailable p.cfg.id now ("SSH collection failed: " <> host.error_text e))
  run_writes host p now (ok output) = decoded_writes p now (host.decode output)

  -- The state of the cluster that a collection writes: what the run and the host say, or that the
  -- cluster is unavailable, and nothing if the provider stores none or the report does not pass the
  -- checks.
  unfoldable pub written : Host F → Provider → ℕ → Session → Option ClusterSnapshot
  unfolding run cluster_of unavailable validate_remote_report
  written host p now s = run_writes host p now (run host.remote s).0

  clusters-after_check :
      (p : Provider) (now : ℕ) (raw : RemoteReport F) (v : Result ReportError (Unit {0}))
      (st : State)
      → (after_check p now raw v st).1.clusters
        ≡ put p.cfg.id (checked_writes p now raw v) st.clusters
  unfolding after_check
  clusters-after_check p now raw (err e) st = refl
  clusters-after_check p now raw (ok _) st = clusters-store_cluster p _ _

  clusters-after_decode :
      (p : Provider) (now : ℕ) (raw : Option (RemoteReport F)) (st : State)
      → (after_decode p now raw st).1.clusters ≡ put p.cfg.id (decoded_writes p now raw) st.clusters
  unfolding after_decode mark_slurm_unavailable
  clusters-after_decode p now none st = clusters-store_cluster p _ st
  clusters-after_decode p now (some raw) st = clusters-after_check p now raw _ st

  clusters-after_run :
      (host : Host F) (p : Provider) (now : ℕ) (r : Result RunError String) (st : State)
      → (after_run host p now r st).1.clusters ≡ put p.cfg.id (run_writes host p now r) st.clusters
  unfolding after_run mark_slurm_unavailable
  clusters-after_run host p now (err e) st = clusters-store_cluster p _ _
  clusters-after_run host p now (ok output) st = clusters-after_decode p now _ st

  -- A collection changes the store by at most one write under the provider's id, which does not depend
  -- on what the store holds.
  pub clusters-collect :
      (host : Host F) (p : Provider) (now : ℕ) (st : State)
      → (collect host p now st).1.clusters
        ≡ put p.cfg.id (written host p now st.session) st.clusters
  unfolding collect written
  clusters-collect host p now st = clusters-after_run host p now _ _

  checked_writes-none :
      (p : Provider) (now : ℕ) (raw : RemoteReport F) (v : Result ReportError (Unit {0}))
      → keeps_cluster p ≡ false
      → checked_writes p now raw v ≡ none
  checked_writes-none p now raw (err e) h = refl
  checked_writes-none p now raw (ok _) h = rw h refl

  run_writes-none :
      (host : Host F) (p : Provider) (now : ℕ) (r : Result RunError String)
      → keeps_cluster p ≡ false
      → run_writes host p now r ≡ none
  run_writes-none host p now (err e) h = rw h refl
  run_writes-none host p now (ok output) h = decoded (host.decode output)
    where
      decoded : (raw : Option (RemoteReport F)) → decoded_writes p now raw ≡ none
      decoded none = rw h refl
      decoded (some raw) = checked_writes-none p now raw (checked p raw) h

  -- What is read under another id, and of a provider that stores no cluster, stays.
  pub get-collect :
      (id : String) (host : Host F) (p : Provider) (now : ℕ) (st : State)
      → (keeps_cluster p && (p.cfg.id == id)) ≡ false
      → get id (collect host p now st).1.clusters ≡ get id st.clusters
  unfolding written
  get-collect id host p now st other =
      rw (clusters-collect host p now st) (elim (Bool-cases (keeps_cluster p)) [
        | inl keeps ↦
            get-put_other p.cfg.id id (written host p now st.session) st.clusters
              (ground (arith, other, keeps))
        | inr none_kept ↦
            rw (run_writes-none host p now (run host.remote st.session).0 none_kept) refl
      ])
