-- ===== src/Job/Effects.antt =====
-- controllers/patchjob_controller.go: what a reconcile of a PatchJob may write, and when.
pub mod Allowed
pub mod Shared
pub mod Reconcile
pub mod Kubernetes
pub mod Init
pub mod Upgrading
pub mod Draining
