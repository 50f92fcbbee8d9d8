-- ===== src/HttpApi/Access.antt =====
-- Who may read what through the HTTP API.
use komari_bridge.Base.{if◌then◌else◌, [], String, ◌==◌, ◌≡◌, ◌≢◌, ◌⊎◌, arith, eq_iff}
use komari_bridge.Base.Dict.{lookup, lookup-insert, NodupKeys, lookup-insert_all}
use komari_bridge.Slurm.{Clusters, ClusterSnapshot, get, set, all}
use komari_bridge.HttpApi.{Route, one_slurm, cluster, provided_key, may_pass, handle}

-- With a key configured, a request that does not carry it learns nothing of the clusters: the two
-- Slurm routes answer the same, whatever the store holds.
pub handle_unauthorized :
    (api_key header : String) (stored other : Clusters) (route : Route)
    → api_key ≢ ""
    → provided_key header ≢ api_key
    → handle api_key stored header route ≡ handle api_key other header route
unfolding handle may_pass
handle_unauthorized api_key header stored other route configured wrong =
    ground (arith, eq_iff api_key "", eq_iff (provided_key header) api_key)

-- To a request that carries the key, or where no key is configured, a cluster that was just stored
-- is served under its id, and the other ids are answered as they were before.
pub handle-set :
    (api_key header source id : String) (s : ClusterSnapshot) (stored : Clusters)
    → (api_key ≡ "") ⊎ (provided_key header ≡ api_key)
    → handle api_key (set id s stored) header (one_slurm source) ≡ (
        if id == source
        then record { status = 200; payload = cluster s }
        else handle api_key stored header (one_slurm source))
unfolding handle may_pass get set
handle-set api_key header source id s stored allowed = ground (
  arith,
  eq_iff api_key "",
  eq_iff (provided_key header) api_key,
  lookup-insert id source s stored,
)

-- The copy that the route of all clusters serves has the same cluster under each id as the store.
pub get-all :
    (id : String) (stored : Clusters) → NodupKeys stored → get id (all stored) ≡ get id stored
unfolding get all lookup
get-all id stored nodup = ground (arith, lookup-insert_all id stored [] nodup)
