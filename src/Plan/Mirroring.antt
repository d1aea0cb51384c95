-- ===== src/Plan/Mirroring.antt =====
-- controllers/leases.go: how the leases of a plan mirror its jobs.
pub mod Leased
pub mod Entries
pub mod Held
pub mod Sync
