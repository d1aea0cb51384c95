-- ===== src/Job.antt =====
-- controllers/patchjob_controller.go.
pub mod Common
pub mod Init
pub mod Draining
pub mod Upgrading
pub mod Kubernetes
pub mod Reconcile
pub mod Effects
pub mod Progress
pub mod Recovery
pub mod Completion
