-- ===== src/Proxmox/Collect/Nodes.antt =====
-- What a collection of a Proxmox cluster shows of its nodes.
use komari_bridge.Base.{
  ℕ, ◌+◌, ◌≡◌, refl, inl, inr, Bool-cases, Option, none, some, List, [], ◌∷◌, All, ok,
}
use komari_bridge.Base.Dict.{Dict}
use komari_bridge.Base.Floats.{Float64}
use komari_bridge.Model.{Snapshot}
use komari_bridge.Proxmox.Resource.{Source, Resource, NetworkSample, snapshot, snapshot_at}
use komari_bridge.Proxmox.Requests.{do_json, answered}
use komari_bridge.Proxmox.Provider.{Provider, Caches, no_caches}
use komari_bridge.Proxmox.Collect.{
  Answers, Api, is_listed, observe, observe_all, collect, collect_from,
}
use komari_bridge.Proxmox.Collect.Preserve.{
  IsSound, IsShown, IsTurn, apply_override-IsTurn, enrich_from_agent-IsTurn,
  enrich_from_node-IsTurn,
}

module _ {F : Type 0} ⦃fl : Float64 F⦄ where
  type-snapshot :
      (p : Source) (item : Resource F) (now : ℕ) (samples : Dict NetworkSample)
      → (snapshot p item now samples).0.resource_type ≡ item.type
  unfolding snapshot snapshot_at
  type-snapshot p item now samples = refl

  observe-IsTurn :
      (p : Provider) (now : ℕ) (api : Answers) (item : Resource F) (c : Caches)
      → IsSound c
      → IsTurn (observe p now api item c)
  unfolding observe
  observe-IsTurn p now api item c sound = apply_override-IsTurn api item _ _ (
      enrich_from_agent-IsTurn api item _
        (enrich_from_node-IsTurn api item _ _ (type-snapshot p.source item now c.network) sound))

  observe_all-IsShown :
      (p : Provider) (api : Api F) (n : ℕ) (items : List (Resource F)) (c : Caches)
      → IsSound c
      → All IsShown (observe_all p api n items c).0 × IsSound (observe_all p api n items c).1
  unfolding observe_all
  observe_all-IsShown p api n [] c sound = (tt, sound)
  observe_all-IsShown p api n (item ∷ items) c sound =
      let first = observe-IsTurn p api.now (api.answers n) item c sound in
      let rest =
        observe_all-IsShown p api (n + 1) items (observe p api.now (api.answers n) item c).1
          first.sound in
      elim (Bool-cases (is_listed p item)) [
        | inl listed ↦ rw listed ((first.shown, rest.0), rest.1)
        | inr skipped ↦ rw skipped (observe_all-IsShown p api (n + 1) items c sound)
      ]

  collect_from-IsSound :
      (p : Provider) (api : Api F) (r : Option (List (Resource F))) (c : Caches)
      → IsSound c
      → IsSound (collect_from p api r c).1
  collect_from-IsSound p api none c sound = sound
  collect_from-IsSound p api (some items) c sound = (observe_all-IsShown p api 0 items c sound).1

  pub collect-IsSound :
      (p : Provider) (api : Api F) (c : Caches) → IsSound c → IsSound (collect p api c).1
  unfolding collect
  collect-IsSound p api c sound =
      collect_from-IsSound p api (answered (do_json api.resources)) c sound

  -- The collections of a provider, one after another.
  unfoldable pub collect_all : Provider → List (Api F) → Caches → Caches
  collect_all p [] c = c
  collect_all p (api ∷ apis) c = collect_all p apis (collect p api c).1

  collect_all-IsSound :
      (p : Provider) (apis : List (Api F)) (c : Caches) → IsSound c → IsSound (collect_all p apis c)
  unfolding collect_all
  collect_all-IsSound p [] c sound = sound
  collect_all-IsSound p (api ∷ apis) c sound =
      collect_all-IsSound p apis (collect p api c).1 (collect-IsSound p api c sound)

  listed-IsShown :
      (p : Provider) (api : Api F) (r : Option (List (Resource F))) (c : Caches)
      (shown : List (Snapshot F))
      → IsSound c
      → (collect_from p api r c).0 ≡ ok shown
      → All IsShown shown
  listed-IsShown p api none c shown sound e = cc
  listed-IsShown p api (some items) c shown sound e =
      let same : (observe_all p api 0 items c).0 ≡ shown = cc in
      rw⁻¹ same (observe_all-IsShown p api 0 items c sound).0

  -- After any history of collections that started with empty caches, whatever the API answered in
  -- each of them, a collection that succeeds shows no node online without a CPU and a physical core.
  pub collect-IsShown :
      (p : Provider) (apis : List (Api F)) (api : Api F) (shown : List (Snapshot F))
      → (collect p api (collect_all p apis no_caches)).0 ≡ ok shown
      → All IsShown shown
  unfolding collect
  collect-IsShown p apis api shown e =
      listed-IsShown p api (answered (do_json api.resources)) _ shown
        (collect_all-IsSound p apis no_caches tt) e
