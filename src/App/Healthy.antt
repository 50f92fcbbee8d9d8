-- ===== src/App/Healthy.antt =====
-- What holds of the bridge at every moment, whatever the world answers.
use komari_bridge.Base.{String, List, [], ◌∷◌, ◌++◌, All}
use komari_bridge.Base.Floats.{Float64}
use komari_bridge.Buildinfo.{Build}
use komari_bridge.Slurm.{Clusters}
use komari_bridge.Ssh.Connection.Balance.{IsBalanced}
use komari_bridge.Linux.Collect.History as Linux
use komari_bridge.Windows.Collect.History as Windows
use komari_bridge.Proxmox.Collect.Nodes as Proxmox
use komari_bridge.Proxmox.Collect.Preserve.{IsSound}
use komari_bridge.Bridge.Process.{Env}
use komari_bridge.Bridge.Process.Requests.{AllSound}
use komari_bridge.Bridge.Process.Constraints.{OnTable}
use komari_bridge.Bridge.Cycle.Sound.{submit-AllSound, submit-OnTable}
use komari_bridge.App.{Live, proxmox, docker, linux, windows, World, collect_live}
use komari_bridge.App.Steps.{
  State, reporter_in, providers_in, Step, begins, collects, merges, submits, ends, stops, Steps,
  none_yet, then,
}

-- A provider holds at most one connection, and knows no node without a CPU.
abbrev pub IsSteady : {F : Type 0} → Live F → Type 0
IsSteady (proxmox p c) = IsSound c
IsSteady (docker cfg samples) = Unit {0}
IsSteady (linux p st) = IsBalanced st.session
IsSteady (windows p st) = IsBalanced st.session

-- One element changed in the middle.
All-replace :
    {A : Type 0} (P : A → Type 0) (xs : List A) (x y : A) (ys : List A)
    → (P x → P y)
    → All P (xs ++ x ∷ ys)
    → All P ((xs ++ y ∷ []) ++ ys)
All-replace P [] x y ys f h = (f h.0, h.1)
All-replace P (z ∷ xs) x y ys f h = (h.0, All-replace P xs x y ys f h.1)

All-nil : {A : Type 0} (P : A → Type 0) (xs : List A) → All P (xs ++ []) → All P xs
All-nil P [] h = tt
All-nil P (x ∷ xs) h = (h.0, All-nil P xs h.1)

module _ {F : Type 0} ⦃fl : Float64 F⦄ where
  pub collect_live-IsSteady :
      (w : World F) (p : Live F) (c : Clusters) → IsSteady p → IsSteady (collect_live w p c).live
  unfolding collect_live
  collect_live-IsSteady w (proxmox p caches) c h = Proxmox.collect-IsSound p w.proxmox_api caches h
  collect_live-IsSteady w (docker cfg samples) c h = tt
  collect_live-IsSteady w (linux p st) c h =
      Linux.collect-IsBalanced w.linux_host.0 p w.linux_host.1 (record st { clusters = c }) h
  collect_live-IsSteady w (windows p st) c h =
      Windows.collect-IsBalanced w.windows_host.0 p w.windows_host.1 st h

  module _ (env : Env F) where
    -- The table keeps its constraints, every report that was sent passed the checks, and every
    -- provider is steady.
    pub record IsHealthy (s : State F) : Type 0 where
      pub table : OnTable env (reporter_in s)
      pub reports : AllSound env (reporter_in s)
      pub providers : All (λ (p : Live F). IsSteady p) (providers_in s)

    module _ (build : Build) (authorities : List String) where
      Step-IsHealthy : {s t : State F} → Step env build authorities s t → IsHealthy s → IsHealthy t
      Step-IsHealthy begins h = record {
        table = h.table;
        reports = h.reports;
        providers = h.providers;
      }
      Step-IsHealthy (collects w {c = c} {ps = ps} {todo = todo} {p = p}) h = record {
        table = h.table;
        reports = h.reports;
        providers =
            All-replace (λ (p : Live F). IsSteady p) ps p (collect_live w p c).live todo
              (collect_live-IsSteady w p c) h.providers;
      }
      Step-IsHealthy (merges order {ps = ps}) h = record {
        table = h.table;
        reports = h.reports;
        providers = All-nil (λ (p : Live F). IsSteady p) ps h.providers;
      }
      Step-IsHealthy (submits {s = s} {r = r}) h = record {
        table = submit-OnTable env build s r h.table;
        reports = submit-AllSound env build s r h.reports;
        providers = h.providers;
      }
      Step-IsHealthy ends h = record {
        table = h.table;
        reports = h.reports;
        providers = h.providers;
      }
      Step-IsHealthy stops h = record {
        table = h.table;
        reports = h.reports;
        providers = h.providers;
      }

      -- At every moment of a run, also in the middle of a cycle, whatever the providers, the server
      -- and the database answered: if the start was healthy, the table keeps one row for each
      -- identity and no Komari UUID twice, every report that was sent passed the checks, every SSH
      -- provider has closed each connection that it opened but for its client's, and no Proxmox
      -- provider knows a node without a CPU.
      pub Steps-IsHealthy :
          {s t : State F} → Steps env build authorities s t → IsHealthy s → IsHealthy t
      Steps-IsHealthy none_yet h = h
      Steps-IsHealthy (then before step) h = Step-IsHealthy step (Steps-IsHealthy before h)
