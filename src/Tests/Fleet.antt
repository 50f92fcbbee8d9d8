-- ===== src/Tests/Fleet.antt =====
-- The properties of the Proxmox and Docker providers and of the wiring, at a sample cluster, engine
-- and configuration.
use komari_bridge.Base.{
  ◌≡◌, refl, String, map, true, false, Option, none, some, List, [], ◌∷◌, All, Result, ok, err,
}
use komari_bridge.Base.Int.{pos}
use komari_bridge.Base.Text.{split}
use komari_bridge.Model.{Snapshot}
use komari_bridge.Config.{ProxmoxConfig, DockerConfig, ProvidersConfig}
use komari_bridge.Proxmox.Resource.{Resource}
use komari_bridge.Proxmox.Enrich.{NodeStatusResponse}
use komari_bridge.Komari.{response, failed, decoded, malformed}
use komari_bridge.Proxmox.Provider.{new_provider, no_caches}
use komari_bridge.Proxmox.Provider as Proxmox
use komari_bridge.Proxmox.Collect.{Answers, Api}
use komari_bridge.Proxmox.Collect as ProxmoxCollect
use komari_bridge.Proxmox.Collect.Nodes.{collect_all, collect-IsShown}
use komari_bridge.Proxmox.Collect.Preserve.{IsShown}
use komari_bridge.Docker.Client.{Library}
use komari_bridge.Docker.Selection.{ContainerSummary}
use komari_bridge.Docker.Usage.{StatsResponse}
use komari_bridge.Docker.Workload.{
  escape_id, label, compose_service, compose_number, workload_identity,
}
use komari_bridge.Docker.Workload.Identity.{split-workload_identity}
use komari_bridge.Docker.Collect.{Engine, no_inspect, no_stats}
use komari_bridge.Docker.Collect as DockerCollect
use komari_bridge.Docker.Snapshot.Sound.{IsMeasured, collect-IsMeasured}
use komari_bridge.Ssh.Auth.{Keys}
use komari_bridge.Command.{Provider, source_of, build_providers}
use komari_bridge.Command.Sources.{build_providers_sources}
use komari_bridge.Tests.Samples.{Sample, num, Sample-Float64}
use komari_bridge.Tests.Sources.{agent, providers}

abbrev pub pve_node : Resource Sample
pve_node = record {
  id = "node/pve";
  type = "node";
  node = "pve";
  name = "";
  vmid = pos 0;
  status = "online";
  cpu = num (pos 0);
  max_cpu = num (pos 8);
  mem = pos 100;
  max_mem = pos 200;
  disk = pos 10;
  max_disk = pos 20;
  net_in = pos 0;
  net_out = pos 0;
  uptime = pos 60;
  template = pos 0;
}

abbrev status : NodeStatusResponse
status = record {
  model = "Xeon";
  cpus = pos 8;
  cores = pos 4;
  sockets = pos 2;
  pve_version = "8.2";
  kernel = "6.8";
}

abbrev pub silent : Answers
silent = record {
  node_status = λ node. response 500 malformed;
  guest_os = λ node vmid. failed;
  filesystems = λ node vmid. failed;
  command = λ node vmid. record { started = none; status = λ n. none; cancels = λ n. false };
  disk_at = 0;
  memory_at = 0;
}

-- The node's status is known in the first collection and not in the second one.
abbrev pub first_api : Api Sample
first_api = record {
  now = 5;
  resources = response 200 (decoded (pve_node ∷ []));
  answers = λ n. record silent { node_status = λ node. response 200 (decoded status) };
}

abbrev second_api : Api Sample
second_api = record {
  now = 9;
  resources = response 200 (decoded (pve_node ∷ []));
  answers = λ n. silent;
}

abbrev pub lab : Proxmox.Provider
lab = record {
  source = record { id = "lab"; group = ""; names = [] };
  endpoint = "https://pve:8006";
  token_id = "";
  secret = "";
  skip_stopped = false;
  excluded = [];
  resources = [];
}

abbrev pub listed : {E : Type 0} → Result E (List (Snapshot Sample)) → List (Snapshot Sample)
listed (ok ss) = ss
listed (err _) = []

abbrev nodes : List (Snapshot Sample)
nodes =
    listed (ProxmoxCollect.collect lab second_api (collect_all lab (first_api ∷ []) no_caches)).0

collect-IsShown_example : All IsShown nodes
unfolding ProxmoxCollect.collect
collect-IsShown_example = collect-IsShown lab (first_api ∷ []) second_api nodes refl

abbrev pub web : ContainerSummary
web = record {
  id = "0123456789abcdef";
  names = "/web" ∷ [];
  image = "nginx";
  state = "running";
  status = "Up";
  labels = ("com.docker.compose.project", "a:b") ∷ ("com.docker.compose.service", "web") ∷ [];
}

split-workload_identity_example :
    split b':' (workload_identity web).external_id
    ≡ "compose" ∷ escape_id "a:b" ∷ escape_id "web" ∷ escape_id "1" ∷ []
unfolding label compose_service compose_number
split-workload_identity_example = split-workload_identity web

abbrev pub busy : StatsResponse
busy = record no_stats { memory_stats = record { usage = 500; limit = 1000; stats = [] } }

abbrev pub engine : Engine
engine = record {
  containers = λ all. some (web ∷ []);
  answers = λ n. record { admitted = true; stats = (busy, false); inspect = (no_inspect, false) };
  now = 9;
  parse_time = λ text. none;
}

abbrev pub docker_config : DockerConfig
docker_config = record {
  id = "local";
  endpoint = "unix:///var/run/docker.sock";
  group = "";
  attach_to = agent.attach_to;
  include_all = true;
  include_stopped = false;
  insecure_allow_http = false;
  insecure_skip_verify = false;
  tls_ca_file = "";
  tls_cert_file = "";
  tls_key_file = "";
}

abbrev containers : List (Snapshot Sample)
containers = listed (DockerCollect.collect docker_config engine []).0

collect-IsMeasured_example : All IsMeasured containers
unfolding DockerCollect.collect
collect-IsMeasured_example = collect-IsMeasured docker_config engine [] containers refl

abbrev pub cluster_config : ProxmoxConfig
cluster_config = record {
  id = "lab";
  endpoint = "https://pve:8006/";
  token_id = "";
  token_secret = "";
  group = "";
  insecure_skip_verify = false;
  skip_stopped = false;
  exclude_resources = [];
  names = [];
  resources = [];
}

abbrev fleet : ProvidersConfig
fleet = record providers { proxmox = cluster_config ∷ []; docker = docker_config ∷ [] }

abbrev pub parsed : String → Option Proxmox.Url
parsed text = some (record { scheme = "https"; host = "pve:8006"; text = text })

abbrev pub library : Library
library = record {
  parse_url = λ text. some (record { scheme = "unix"; host = ""; path = "/var/run/docker.sock" });
  clean = λ path. path;
  read_file = λ path. none;
  has_certificates = λ pem. false;
  load_key_pair = λ cert key. none;
}

abbrev pub keys : Keys
keys = record { read_file = λ path. none; parses = λ text. false }

abbrev built : List Provider
built = elim (build_providers parsed library keys fleet) [ ok ps ↦ ps | err _ ↦ [] ]

build_providers_sources_example :
    map source_of built
    ≡ ("proxmox", "lab")
      ∷ ("docker", "local")
      ∷ ("agentless_ssh", "agent")
      ∷ ("linux_ssh", "agent")
      ∷ []
unfolding build_providers
build_providers_sources_example = build_providers_sources parsed library keys fleet built refl
