-- ===== src/Linux.antt =====
-- providers/linuxssh/linuxssh.go: the provider of a Linux host's metrics and of a Slurm cluster's
-- state. The report that the remote collector prints is decoded by `json`, a parameter here.
pub mod Report
pub mod Cluster
pub mod Provider
pub mod Snapshot
pub mod Collect
