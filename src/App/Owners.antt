-- ===== src/App/Owners.antt =====
-- The owners of metrics in a bridge that has started.
use komari_bridge.Base.{◌≡◌, refl, String, List, [], ◌∷◌, ◌++◌, map, ok}
use komari_bridge.Model.{Identity}
use komari_bridge.Config.Load.{load-IsConfig}
use komari_bridge.Config.Authorities.{validate_unique_metric_authorities_iff}
use komari_bridge.Command.{Provider, proxmox, docker, linux, windows}
use komari_bridge.Command.Targets.{targets_of, all_targets}
use komari_bridge.Command.Owners.{AreDistinct, build_providers-AreDistinct}
use komari_bridge.App.{Live, start_live, live_targets}
use komari_bridge.App.Cycle.{Bridge}
use komari_bridge.App.Start.{Setup, start_bridge, start_bridge-IsStarted}

module _ {F : Type 0} where
  -- What the providers of a bridge say that they own the metrics of.
  abbrev pub owned : List (Live F) → List Identity
  owned [] = []
  owned (p ∷ ps) = live_targets p ++ owned ps

module _ (F : Type 0) where
  targets-start_live : (p : Provider) → live_targets (start_live {F = F} p) ≡ targets_of p
  unfolding live_targets start_live
  targets-start_live (proxmox p c) = refl
  targets-start_live (docker cfg client) = refl
  targets-start_live (linux p auth) = refl
  targets-start_live (windows p auth) = refl

  owned-start :
      (ps : List Provider)
      → owned (map (λ (p : Provider). start_live {F = F} p) ps) ≡ all_targets ps
  unfolding all_targets
  owned-start [] = refl
  owned-start (p ∷ ps) = rw (targets-start_live p, owned-start ps) refl

module _ {F : Type 0} where
  -- In a bridge that has started, whatever its configuration is, no two providers, nor one of them
  -- twice, own the metrics of a resource with the same key: what `Load` checks of the file is so of
  -- the providers that run.
  pub start_bridge-AreDistinct :
      (setup : Setup) (path : String) (b : Bridge F)
      → start_bridge setup path ≡ ok b
      → AreDistinct (owned b.providers)
  start_bridge-AreDistinct setup path b started =
      let i = start_bridge-IsStarted setup path b started in
      let valid = load-IsConfig setup.source path i.config i.loaded in
      rw⁻¹ i.same (
        rw (owned-start F i.made) (
          build_providers-AreDistinct setup.parse_url setup.library setup.keys i.config.providers
            i.made ((validate_unique_metric_authorities_iff i.config.providers).1 valid.unique)
            i.built))
