-- ===== src/Windows.antt =====
-- providers/windowsssh/windowsssh.go: the provider of a Windows host's metrics and of the WSL
-- distributions on it. What the remote collector prints is decoded by `json`, a parameter here.
pub mod Report
pub mod Probe
pub mod Provider
pub mod Snapshot
pub mod Host
pub mod Collect
pub mod Sound
pub mod Bootstrap
