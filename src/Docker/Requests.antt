-- ===== src/Docker/Requests.antt =====
-- providers/docker/docker.go: `getJSON`, and an engine by the replies to the requests of a collection.
use komari_bridge.Base.{
  ℕ, ◌||◌, String, Bool, true, false, Option, none, some, List, [], ltb, leb, if◌then◌else◌,
}
use komari_bridge.Docker.Selection.{ContainerSummary}
use komari_bridge.Docker.Usage.{StatsResponse}
use komari_bridge.Docker.Snapshot.{InspectResponse}
use komari_bridge.Docker.Collect.{Engine, no_stats, no_inspect}

-- What `json.Unmarshal` makes of the body: a value, or what it has written before its error.
pub data Body (A : Type 0) : Type 0 where
  decoded refused : A → Body A

-- A failure of the request or of the read, or a status and a body.
pub data Reply (A : Type 0) : Type 0 where
  failed : Reply A
  response : ℕ → Body A → Reply A

abbrev unmarshal : {A : Type 0} → Body A → A × Bool
unmarshal (decoded a) = (a, false)
unmarshal (refused a) = (a, true)

-- What the target holds after the request, and whether the request has failed.
unfoldable pub get_json : {A : Type 0} → A → Reply A → A × Bool
get_json target failed = (target, true)
get_json target (response status body) =
    if ltb status 200 || leb 300 status then (target, true) else unmarshal body

-- The replies of an engine in one collection: to the list of containers, all or the running ones, and
-- to the two requests of each container's goroutine, if the context lets it start.
pub record Replies : Type 0 where
  pub containers : Bool → Reply (List ContainerSummary)
  pub admitted : ℕ → Bool
  pub stats : ℕ → Reply StatsResponse
  pub inspect : ℕ → Reply InspectResponse
  pub now : ℕ
  pub parse_time : String → Option ℕ

abbrev if_done : {A : Type 0} → A × Bool → Option A
if_done (a, bad) = if bad then none else some a

unfoldable pub engine_of : Replies → Engine
unfolding get_json
engine_of replies = record {
  containers = λ stopped. if_done (get_json [] (replies.containers stopped));
  answers = λ n. record {
    admitted = replies.admitted n;
    stats = get_json no_stats (replies.stats n);
    inspect = get_json no_inspect (replies.inspect n);
  };
  now = replies.now;
  parse_time = replies.parse_time;
}
