-- ===== src/App/Stable.antt =====
-- What no step of the bridge takes back: the client of a resource.
use komari_bridge.Base.{String, List}
use komari_bridge.Base.Floats.{Float64}
use komari_bridge.Buildinfo.{Build}
use komari_bridge.Model.{Identity, Binding}
use komari_bridge.Bridge.Process.{Env}
use komari_bridge.Bridge.Process.Bindings.{IsBound}
use komari_bridge.Bridge.Process.Stable.{process-IsBound}
use komari_bridge.Bridge.Cycle.Sound.{submit-keeps}
use komari_bridge.App.Steps.{
  State, reporter_in, Step, begins, collects, merges, submits, ends, stops, Steps, none_yet, then,
}

module _ {F : Type 0} ⦃fl : Float64 F⦄ (env : Env F) (build : Build) (authorities : List String)
    (i : Identity) (b : Binding) where
  Step-IsBound :
      {s t : State F}
      → Step env build authorities s t
      → IsBound env i b (reporter_in s)
      → IsBound env i b (reporter_in t)
  Step-IsBound begins h = h
  Step-IsBound (collects w) h = h
  Step-IsBound (merges order) h = h
  Step-IsBound (submits {s = s} {r = r}) h =
      submit-keeps env build (IsBound env i b) (λ x v. process-IsBound env i b x) (λ r n k. k) s r h
  Step-IsBound ends h = h
  Step-IsBound stops h = h

  -- Once a resource has a client, it is the same client at every later moment of a run: whatever the
  -- providers collect and the server and the database answer, the UUID and the token that the table
  -- holds for the resource never change.
  pub Steps-IsBound :
      {s t : State F}
      → Steps env build authorities s t
      → IsBound env i b (reporter_in s)
      → IsBound env i b (reporter_in t)
  Steps-IsBound none_yet h = h
  Steps-IsBound (then before step) h = Step-IsBound step (Steps-IsBound before h)
