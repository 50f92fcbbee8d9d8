-- ===== src/Slurm.antt =====
-- internal/slurm: the snapshots of the Slurm clusters and the store that the HTTP API reads.
pub mod Abstract
use komari_bridge.Base.{ℕ, String, Bool, Option, List, []}
use komari_bridge.Base.Int.{ℤ}
use komari_bridge.Base.Dict.{Dict, lookup, insert, insert_all}

pub record Partition : Type 0 where
  pub name : String
  pub availability : String
  pub nodes : ℤ
  pub state : String
  pub cpus : String
  pub gres : String

pub record Job : Type 0 where
  pub id : String
  pub partition : String
  pub user : String
  pub state : String
  pub elapsed : String
  pub nodes : ℤ
  pub reason : String
  pub gres : String

pub record ClusterSnapshot : Type 0 where
  pub source_id : String
  pub collected_at : ℕ
  pub available : Bool
  pub error : String
  pub controller_up : Bool
  pub node_daemon_up : Bool
  pub partitions : List Partition
  pub jobs : List Job
  pub jobs_running : ℤ
  pub jobs_pending : ℤ
  pub jobs_other : ℤ
  pub gpus_configured : ℤ
  pub gpus_allocated : ℤ

abbrev pub Clusters : Type 0
Clusters = Dict ClusterSnapshot

abbrev pub new_store : Clusters
new_store = []

-- `Set`, `Get` and `All`; the lock makes each a single step.
unfoldable pub set : String → ClusterSnapshot → Clusters → Clusters
unfolding insert
set id snapshot stored = insert id snapshot stored

unfoldable pub get : String → Clusters → Option ClusterSnapshot
unfolding lookup
get id stored = lookup id stored

unfoldable pub all : Clusters → Clusters
unfolding insert_all
all stored = insert_all stored []
