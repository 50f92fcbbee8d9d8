-- ===== src/Linux/Cluster.antt =====
-- providers/linuxssh/linuxssh.go: the Slurm part of `Collect` and `markSlurmUnavailable`.
use komari_bridge.Base.{
  ℕ, ◌+◌, ◌≡◌, String, ◌<>◌, ◌==◌, true, false, List, [], ◌∷◌, length, arith, if◌then◌else◌,
}
use komari_bridge.Base.Int.{pos}
use komari_bridge.Base.Text.{to_upper, itoa}
use komari_bridge.Slurm.{Job, ClusterSnapshot}
use komari_bridge.Linux.Report.{RemoteSlurm}

pub record JobCounts : Type 0 where
  pub running : ℕ
  pub pending : ℕ
  pub other : ℕ

abbrev no_jobs : JobCounts
no_jobs = record { running = 0; pending = 0; other = 0 }

unfoldable pub count_job : String → JobCounts → JobCounts
unfolding to_upper
count_job state counts =
    let upper = to_upper state in
    if upper == "RUNNING"
    then record counts { running = counts.running + 1 }
    else if upper == "PENDING"
    then record counts { pending = counts.pending + 1 }
    else record counts { other = counts.other + 1 }

unfoldable pub count_jobs : List Job → JobCounts → JobCounts
unfolding count_job
count_jobs [] counts = counts
count_jobs (job ∷ jobs) counts = count_jobs jobs (count_job job.state counts)

-- An unavailable cluster has the error, and counts no jobs.
unfoldable pub cluster_of : String → ℕ → RemoteSlurm → ClusterSnapshot
unfolding count_jobs
cluster_of id now slurm =
    let counts = if slurm.available then count_jobs slurm.jobs no_jobs else no_jobs in
    record {
      source_id = id;
      collected_at = now;
      available = slurm.available;
      error = if slurm.available then "" else "Slurm commands unavailable";
      controller_up = slurm.controller_up;
      node_daemon_up = slurm.node_daemon_up;
      partitions = slurm.partitions;
      jobs = slurm.jobs;
      jobs_running = pos counts.running;
      jobs_pending = pos counts.pending;
      jobs_other = pos counts.other;
      gpus_configured = slurm.gpus_configured;
      gpus_allocated = slurm.gpus_allocated;
    }

unfoldable pub cluster_message : ClusterSnapshot → String
unfolding itoa
cluster_message c =
    "Slurm: "
    <> (itoa c.jobs_running
        <> (" running, "
            <> (itoa c.jobs_pending
                <> (" pending; GPUs "
                    <> (itoa c.gpus_allocated
                        <> ("/" <> (itoa c.gpus_configured <> " allocated")))))))

unfoldable pub unavailable : String → ℕ → String → ClusterSnapshot
unavailable id now message = record {
  source_id = id;
  collected_at = now;
  available = false;
  error = message;
  controller_up = false;
  node_daemon_up = false;
  partitions = [];
  jobs = [];
  jobs_running = pos 0;
  jobs_pending = pos 0;
  jobs_other = pos 0;
  gpus_configured = pos 0;
  gpus_allocated = pos 0;
}

abbrev sum_counts : JobCounts → ℕ
sum_counts counts = counts.running + counts.pending + counts.other

count_job-sum :
    (state : String) (counts : JobCounts)
    → sum_counts (count_job state counts) ≡ sum_counts counts + 1
unfolding count_job
count_job-sum state counts = ground arith

count_jobs-sum :
    (jobs : List Job) (counts : JobCounts)
    → sum_counts (count_jobs jobs counts) ≡ sum_counts counts + length jobs
unfolding count_jobs
count_jobs-sum [] counts = omega arith
count_jobs-sum (job ∷ jobs) counts =
    omega (arith, count_jobs-sum jobs (count_job job.state counts), count_job-sum job.state counts)

-- Of an available cluster each job is counted once, as running, pending or other.
pub cluster_of_counts :
    (id : String) (now : ℕ) (slurm : RemoteSlurm)
    → slurm.available ≡ true
    → (running : ℕ) × (pending : ℕ) × (other : ℕ) × ((cluster_of id now slurm).jobs_running
        ≡ pos running)
      × ((cluster_of id now slurm).jobs_pending ≡ pos pending)
      × ((cluster_of id now slurm).jobs_other ≡ pos other)
      × (running + pending + other ≡ length slurm.jobs)
unfolding cluster_of
cluster_of_counts id now slurm on =
    let counts = count_jobs slurm.jobs no_jobs in
    (
      counts.running,
      counts.pending,
      counts.other,
      ground arith,
      ground arith,
      ground arith,
      omega (arith, count_jobs-sum slurm.jobs no_jobs),
    )
