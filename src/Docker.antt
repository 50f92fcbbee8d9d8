-- ===== src/Docker.antt =====
-- providers/docker/docker.go: the parts of the provider that compute, from the engine's answers, which
-- containers are observed and what they use.
pub mod Selection
pub mod Client
pub mod Usage
pub mod Workload
pub mod Samples
pub mod Snapshot
pub mod Collect
pub mod Requests
pub mod Pool
