-- ===== src/Plan/AutoUpdate.antt =====
-- controllers/autoupdate.go: templates that watch for releases of Talos.
pub mod Template
pub mod Check
pub mod Reconcile
