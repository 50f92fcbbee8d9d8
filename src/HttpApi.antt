-- ===== src/HttpApi.antt =====
-- internal/httpapi/server.go: the routes, the check of the API key and the two Slurm handlers. The
-- multiplexer's parsing of a path and `json.Encode` are not modelled: a request is a route.
pub mod Access
use komari_bridge.Base.{String, ◌==◌, Bool, true, false, ◌||◌, ℕ, Option, none, some, if◌then◌else◌}
use komari_bridge.Base.Text.{trim_prefix}
use komari_bridge.Slurm.{Clusters, ClusterSnapshot, get, all}

pub data Route : Type 0 where
  healthz all_slurm : Route
  one_slurm : String → Route

-- The bodies that `writeJSON` encodes.
pub data Payload : Type 0 where
  status_ok unauthorized source_not_found : Payload
  clusters : Clusters → Payload
  cluster : ClusterSnapshot → Payload

pub record Response : Type 0 where
  pub status : ℕ
  pub payload : Payload

unfoldable pub provided_key : String → String
unfolding trim_prefix
provided_key header = trim_prefix header "Bearer "

-- The test that `authorize` makes on the request's header.
unfoldable pub may_pass : String → String → Bool
unfolding provided_key
may_pass api_key header = (api_key == "") || (provided_key header == api_key)

abbrev pub respond_if : Bool → Response → Response
respond_if allowed response =
    if allowed then response else record { status = 401; payload = unauthorized }

abbrev pub serve_all : Clusters → Response
serve_all stored = record { status = 200; payload = clusters (all stored) }

abbrev pub serve_found : Option ClusterSnapshot → Response
serve_found none = record { status = 404; payload = source_not_found }
serve_found (some s) = record { status = 200; payload = cluster s }

unfoldable pub handle : String → Clusters → String → Route → Response
unfolding may_pass get all
handle api_key stored header healthz = record { status = 200; payload = status_ok }
handle api_key stored header all_slurm = respond_if (may_pass api_key header) (serve_all stored)
handle api_key stored header (one_slurm source) =
    respond_if (may_pass api_key header) (serve_found (get source stored))
