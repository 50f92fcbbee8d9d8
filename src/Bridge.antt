-- ===== src/Bridge.antt =====
-- internal/bridge: the collection cycle.
pub mod Validate
pub mod Merge
pub mod Gather
pub mod Topology
pub mod Process
pub mod Cycle
