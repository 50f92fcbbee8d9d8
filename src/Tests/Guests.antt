-- ===== src/Tests/Guests.antt =====
-- The contract of `guest_memory: qga`, at a running guest.
use komari_bridge.Base.{some, [], false, List, ◌∷◌, ◌*◌}
use komari_bridge.Base.Int.{pos}
use komari_bridge.Config.{ResourceOverride}
use komari_bridge.Proxmox.Memory.{GuestCommand}
use komari_bridge.Proxmox.Resource.{Resource}
use komari_bridge.Proxmox.Provider.{no_caches, Provider}
use komari_bridge.Proxmox.Collect.{Answers, Api, collect}
use komari_bridge.Proxmox.Collect.Nodes.{collect_all}
use komari_bridge.Tests.Samples.{Sample, Sample-Float64}
use komari_bridge.Tests.Fleet.{pve_node, silent, first_api, lab, listed}
use komari_bridge.Base.Time.{second}
use komari_bridge.Model.{Snapshot}
use komari_bridge.Komari.{response, decoded}

abbrev guest : Resource Sample
guest = record pve_node { id = "qemu/100"; type = "qemu"; vmid = pos 100; status = "running" }

abbrev meminfo : GuestCommand
meminfo = record {
  started = some (pos 7);
  status = λ n. some (record {
    exited = pos 1;
    exit_code = pos 0;
    out_data = "MemTotal: 2048 kB\nMemAvailable: 1024 kB\n";
    truncated = pos 0;
  });
  cancels = λ n. false;
}

abbrev answering : Answers
answering = record silent { command = λ node vmid. meminfo }

abbrev by_agent : ResourceOverride
by_agent = record { name = ""; os = ""; arch = ""; guest_memory = "QGA" }

abbrev lab_by_agent : Provider
lab_by_agent = record lab { resources = ("qemu:100", by_agent) ∷ [] }

-- The agent answers in the first collection, and no longer half a minute later.
abbrev first_answer : Api Sample
first_answer = record first_api {
  resources = response 200 (decoded (guest ∷ []));
  answers = λ n. answering;
}

abbrev no_answer : Api Sample
no_answer = record first_api {
  resources = response 200 (decoded (pve_node ∷ guest ∷ []));
  answers = λ n. record silent { memory_at = 30 * second };
}

abbrev shown : List (Snapshot Sample)
shown =
    listed
      (collect lab_by_agent no_answer (collect_all lab_by_agent (first_answer ∷ []) no_caches)).0
