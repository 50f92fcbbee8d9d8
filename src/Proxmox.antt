-- ===== src/Proxmox.antt =====
-- providers/proxmox/proxmox.go: the parts of the provider that read a guest through the QEMU guest
-- agent, and the snapshot of a cluster resource.
pub mod Memory
pub mod Disk
pub mod Guest
pub mod Resource
pub mod Enrich
pub mod Provider
pub mod Steps
pub mod Requests
pub mod Collect
