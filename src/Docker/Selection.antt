-- ===== src/Docker/Selection.antt =====
-- providers/docker/docker.go: `selectedContainers` and `enabledLabel`.
use komari_bridge.Base.{String, ◌==◌, Bool, any, get_or, List, [], ◌∷◌, if◌then◌else◌}
use komari_bridge.Base.Dict.{Dict, lookup}
use komari_bridge.Base.Text.{trim_space, to_lower}

pub record ContainerSummary : Type 0 where
  pub id : String
  pub names : List String
  pub image : String
  pub state : String
  pub status : String
  pub labels : Dict String

unfoldable pub enabled_label : String → Bool
unfolding to_lower trim_space
enabled_label value =
    any (λ word. to_lower (trim_space value) == word) ("1" ∷ "true" ∷ "yes" ∷ "on" ∷ "enabled" ∷ [])

unfoldable pub is_monitored : ContainerSummary → Bool
unfolding enabled_label lookup
is_monitored c = enabled_label (get_or (lookup "komari.bridge.monitor" c.labels) "")

-- The loop, which appends to the front part of the slice that it reads.
unfoldable pub monitored : List ContainerSummary → List ContainerSummary
unfolding is_monitored
monitored [] = []
monitored (c ∷ cs) = let rest = monitored cs in if is_monitored c then c ∷ rest else rest

unfoldable pub selected_containers : List ContainerSummary → Bool → List ContainerSummary
unfolding monitored
selected_containers containers include_all =
    if include_all then containers else monitored containers
