-- ===== src/Lib.antt =====
-- komari-bridge: the collection of resource snapshots and their report to a Komari server.
--
-- Providers collect snapshots of resources; the bridge merges the snapshots of one resource, lets the
-- providers that own a resource's metrics decide them, adds the topology as display metadata, checks
-- each snapshot, and reports it to the Komari server as a client of its own, which is registered at
-- the first sight and kept in a table. A small HTTP API serves the state of Slurm clusters.
--
-- The parts and their files:
--   Model      internal/model/model.go: identities, basic infos, reports, snapshots, bindings.
--   Buildinfo  internal/buildinfo/buildinfo.go: `ClientVersion`.
--   Store      internal/store/store.go: the table of resources. The statements are functions on the
--              list of rows; each takes whether the driver fails. Store/Keys has the constraints,
--              Store/Bindings what is read back, Store/Opening `Open`.
--   Komari     internal/komari/client.go: `Register`, `UploadBasicInfo` and `Report`. The server is a
--              function of the requests so far, and the requests are logged. Komari/Endpoint has `New`.
--   Config     internal/config/config.go: the types and `applyDefaults`; Config/Checks and
--              Config/Authorities have the helpers of `validate`, Config/Validate the function and
--              Config/Load `Load`.
--   Slurm      internal/slurm/model.go and store.go: the map that the API reads; Slurm/Abstract has it
--              as what can be read from it, a quotient.
--   HttpApi    internal/httpapi/server.go: the key check and the handlers; a request is a route.
--   Bridge     internal/bridge/runner.go. Validate has `validateSnapshot`, Merge `ResourceKey` and
--              `mergeSnapshots`, Gather the provider loop of `Cycle` and `applyMetricAuthorities`,
--              Topology `decorateTopology`, Process `process`, Cycle `Cycle` as a whole. Cycle/Run
--              has the steps of `Run`, Cycle/Errors and Cycle/Delivery a cycle without an error,
--              Cycle/Isolation one with a provider that fails, Gather/Saved and Gather/Owners what is
--              saved of the owners' snapshots, Cycle/Authority what that decides.
--   Proxmox    providers/proxmox/proxmox.go: Memory, Disk, Guest and Enrich have what the API and
--              the guest agent tell of a node or a guest, Resource the snapshot of a cluster
--              resource, Provider `New`, Requests `doJSON`, Steps and Collect the loop of
--              `Collect`. The API's answers are a parameter, for each turn of the loop. Under
--              Collect, Nodes and Guests are about whole histories of collections.
--   Docker     providers/docker/docker.go: Client has `New` with the transport, Selection the choice of
--              the containers, Workload their identities, Usage cores, CPU, memory and network
--              totals, Samples the rates, Snapshot `snapshot`, Collect `Collect` and Requests `getJSON`.
--              Pool has the goroutines of `Collect` and their semaphore, as steps that also write
--              the results.
--   Ssh        what providers/linuxssh/linuxssh.go and providers/windowsssh/windowsssh.go both have:
--              the connection, as calls that change a session and read the remote host's answers in
--              turn, for each connection its own, the authentication, the counters and the GPUs'
--              names. `runWithReconnect` is only in the Windows package.
--   Linux      providers/linuxssh/linuxssh.go: Report and Cluster have the remote report and the state
--              of the cluster in it, Snapshot the snapshot, Collect `Collect`, which writes the
--              store that the HTTP API reads.
--   Windows    providers/windowsssh/windowsssh.go: Report has the collector's output, Probe the GPU
--              probes, Host and Snapshot the snapshots of the host and of its WSL distributions,
--              Collect `Collect`, Bootstrap the commands of providers/windowsssh/collector.go.
--   Command    cmd/komari-bridge/main.go: `buildProviders`, with the constructors of the providers.
--              Targets and Owners compare what it builds with the checks of Config.
--   App        the whole program, cmd/komari-bridge/main.go with internal/bridge/runner.go: the
--              providers at work and the store of the clusters that they share, Start the way to the
--              first cycle, Cycle a cycle with its collections as one function, Steps the same in
--              small steps, and Main `main` by its exit status. Refines and Runs compare the steps
--              with whole cycles, Healthy has what holds at every moment, Visible what the API shows
--              in between, Owners who owns metrics, Stable what no step takes back, and Order what
--              the order of the collections changes.
--   Base       what the parts share: integers with the wrap of int64, text functions of Go's
--              `strings` and `strconv`, maps as association lists, results, methods that change an
--              object (`Exec`), and the operations of float64 as a record over an unknown type.
--   Tests      the sample machine, server and configuration, and the properties at them.
--
-- Conventions. A time is a number of nanoseconds since Go's zero time, a duration an integer number
-- of them. A map is a list of entries, and a range over it visits them in the list's order; `cycle`
-- takes the order of the merged snapshots as a function. `sort.Slice` keeps equal ones in order
-- here. Maps of tags are shared by copies of a snapshot: Gather writes out where a merge changes
-- the cached snapshot too. Errors are values, one constructor for each message. A method that fails
-- leaves what it wrote before.
--
-- Bounds and fuel. `site_from` takes fuel, two more than the number of snapshots, for a loop that
-- visits another external id in each round. `poll` takes the source's own bound of ten attempts.
--
-- Not modelled: the SQL driver, HTTP, SSH, JSON and YAML, which are parameters or left out; the
-- Python and PowerShell scripts that the SSH providers run on other hosts. The answers that a
-- collection gets are parameters of it, so the URLs of the requests and the bounds on their sizes
-- are left out. `url.Parse`, `time.Parse`, files, certificates and SSH keys are parameters. Logging is
-- left out everywhere. An error of the driver's `RowsAffected` in `Bind`, which would come after the
-- write, is left out, and a merge into a snapshot without a map of tags, which no provider returns.
pub mod Base
pub mod Model
pub mod Buildinfo
pub mod Store
pub mod Komari
pub mod Config
pub mod Slurm
pub mod HttpApi
pub mod Bridge
pub mod Proxmox
pub mod Docker
pub mod Ssh
pub mod Linux
pub mod Windows
pub mod Command
pub mod App
pub mod Tests
