-- ===== src/App/Start.antt =====
-- cmd/komari-bridge/main.go: how `main` puts the bridge together, up to the runner.
use komari_bridge.Base.{
  ◌≡◌, refl, String, Option, some, List, [], ◌∷◌, All, map, Result, ok, err, ◌>>=◌,
}
use mathlib.Core.Path.{subst}
use komari_bridge.Base.Floats.{Float64}
use komari_bridge.Buildinfo.{Build}
use komari_bridge.Slurm.{new_store}
use komari_bridge.Config.{Config}
use komari_bridge.Config.Load.{LoadError, Source, load}
use komari_bridge.Store.{Table}
use komari_bridge.Store.Keys.{IsTable}
use komari_bridge.Store.Opening.{Disk, Handles, OpenError, open_store, open_store-IsTable}
use komari_bridge.Komari.Endpoint.{EndpointError, new_client}
use komari_bridge.Proxmox.Provider.{Url}
use komari_bridge.Docker.Client.{Library}
use komari_bridge.Ssh.Auth.{Keys}
use komari_bridge.Command.{Provider, proxmox, docker, linux, windows, BuildError, build_providers}
use komari_bridge.Command.Sources.{bound}
use komari_bridge.Command.Fresh.{IsFresh, build_providers-IsFresh}
use komari_bridge.Bridge.Process.{Env, Reporter}
use komari_bridge.App.{Live, start_live}
use komari_bridge.App.Cycle.{Bridge, targets_of_all}
use komari_bridge.App.Steps.{State, waiting, Steps}
use komari_bridge.App.Healthy.{IsSteady, IsHealthy, Steps-IsHealthy}

pub data StartError : Type 0 where
  load_failed : LoadError → StartError
  open_failed : OpenError → StartError
  client_failed : EndpointError → StartError
  providers_failed : BuildError → StartError

-- What the start reads: the configuration's file, the database's, `url.Parse`, and what the Docker and
-- the SSH clients are made with.
pub record Setup : Type 0 where
  pub source : Source
  pub disk : Disk
  pub parse_url : String → Option Url
  pub library : Library
  pub keys : Keys

-- The handles of a process that has opened nothing.
abbrev pub no_handles : Handles
no_handles = record { opened = 0; closed = 0 }

abbrev pub stage : {E A : Type 0} → (E → StartError) → Result E A → Result StartError A
stage fail (ok a) = ok a
stage fail (err e) = err (fail e)

module _ {F : Type 0} where
  abbrev pub new_reporter : Table → Reporter F
  new_reporter t = record {
    table = t;
    client = record { seq = 0; sent = [] };
    hashes = [];
    ticks = 0;
  }

  -- The bridge before its first cycle: `NewRunner`, on an empty Slurm store.
  abbrev pub new_bridge : Table → List Provider → Bridge F
  new_bridge t ps = record {
    stored = new_store;
    providers = map (λ (p : Provider). start_live p) ps;
    runner = record { reporter = new_reporter t; cache = [] };
  }

  unfoldable pub start_bridge : Setup → String → Result StartError (Bridge F)
  unfolding load open_store new_client build_providers start_live
  start_bridge setup path = do
    cfg ← stage load_failed (load setup.source path)
    t ← stage open_failed (open_store setup.disk cfg.database.path no_handles).0
    endpoint ← stage client_failed (new_client setup.parse_url cfg.komari.endpoint)
    ps ←
        stage providers_failed
          (build_providers setup.parse_url setup.library setup.keys cfg.providers)
    ok (new_bridge t ps)

staged :
    {E A : Type 0} (fail : E → StartError) (r : Result E A) (a : A) → stage fail r ≡ ok a → r ≡ ok a
staged fail (ok b) a h = let e : b ≡ a = cc in rw e refl
staged fail (err e) a h = cc

ok_value : {E A : Type 0} {a b : A} → Path (Result E A) (ok a) (ok b) → a ≡ b
ok_value h = cc

start_live-IsSteady : (F : Type 0) (p : Provider) → IsFresh p → IsSteady (start_live {F = F} p)
unfolding start_live
start_live-IsSteady F (proxmox p c) h = rw h.empty tt
start_live-IsSteady F (docker cfg client) h = tt
start_live-IsSteady F (linux p auth) h = refl
start_live-IsSteady F (windows p auth) h = refl

all-IsSteady :
    (F : Type 0) (ps : List Provider)
    → All IsFresh ps
    → All (λ (p : Live F). IsSteady p) (map (λ (p : Provider). start_live p) ps)
all-IsSteady F [] h = tt
all-IsSteady F (p ∷ ps) h = (start_live-IsSteady F p h.0, all-IsSteady F ps h.1)

module _ {F : Type 0} where
  -- What is known of a bridge that has started.
  pub record IsStarted (setup : Setup) (path : String) (b : Bridge F) : Type 0 where
    pub config : Config
    pub loaded : load setup.source path ≡ ok config
    pub table : Table
    pub opened : (open_store setup.disk config.database.path no_handles).0 ≡ ok table
    pub made : List Provider
    pub built : build_providers setup.parse_url setup.library setup.keys config.providers ≡ ok made
    pub same : new_bridge table made ≡ b

  pub start_bridge-IsStarted :
      (setup : Setup) (path : String) (b : Bridge F)
      → start_bridge setup path ≡ ok b
      → IsStarted setup path b
  unfolding start_bridge
  start_bridge-IsStarted setup path b h =
      let b1 = bound (stage load_failed (load setup.source path)) _ b h in
      let cfg = b1.value in
      let b2 =
        bound (stage open_failed (open_store setup.disk cfg.database.path no_handles).0) _ b
          b1.rest in
      let b3 =
        bound (stage client_failed (new_client setup.parse_url cfg.komari.endpoint)) _ b b2.rest in
      let b4 =
        bound
          (stage providers_failed
            (build_providers setup.parse_url setup.library setup.keys cfg.providers))
          _ b b3.rest in
      record {
        config = cfg;
        loaded = staged load_failed _ cfg b1.first;
        table = b2.value;
        opened = staged open_failed _ b2.value b2.first;
        made = b4.value;
        built = staged providers_failed _ b4.value b4.first;
        same = ok_value b4.rest;
      }

module _ {F : Type 0} ⦃fl : Float64 F⦄ (env : Env F) (build : Build) where
  new_bridge-IsHealthy :
      (t : Table) (ps : List Provider)
      → IsTable t
      → All IsFresh ps
      → let b = new_bridge t ps in IsHealthy env (waiting b.stored b.providers b.runner)
  new_bridge-IsHealthy t ps table fresh = record {
    table = table;
    reports = tt;
    providers = all-IsSteady F ps fresh;
  }

  -- The whole program: if the table of resources in every database file keeps its constraints, then
  -- whatever configuration it is started with, it is healthy at every moment of its run, whatever the
  -- hosts, the engines, the clusters, the server and the database answer: no two rows of the table have
  -- one identity or one Komari UUID, every report that it sent passed the checks, every SSH provider
  -- holds at most the connection of its client, and no Proxmox provider knows a node without a CPU.
  pub start_bridge-IsHealthy :
      (setup : Setup) (path : String) (b : Bridge F) (s : State F)
      → ((file : String) (rows : Table) → setup.disk.rows file ≡ some rows → IsTable rows)
      → start_bridge setup path ≡ ok b
      → Steps env build (targets_of_all b.providers) (waiting b.stored b.providers b.runner) s
      → IsHealthy env s
  start_bridge-IsHealthy setup path b s kept started steps =
      let i = start_bridge-IsStarted setup path b started in
      let first =
        new_bridge-IsHealthy i.table i.made
          (open_store-IsTable setup.disk i.config.database.path no_handles i.table
            (λ rows e. kept i.config.database.path rows e) i.opened)
          (build_providers-IsFresh setup.parse_url setup.library setup.keys i.config.providers
            i.made i.built) in
      Steps-IsHealthy env build (targets_of_all b.providers) steps
        (subst (λ x. IsHealthy env (waiting x.stored x.providers x.runner)) i.same first)
