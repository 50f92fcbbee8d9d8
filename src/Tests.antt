-- ===== src/Tests.antt =====
-- The properties at concrete inputs.
mod Samples
mod Payloads
mod Runs
mod Sources
mod Hosts
mod Distributions
mod Fleet
mod Guests
mod Whole
mod Pool
mod Owned
mod Clusters
