-- ===== src/Job/Completion.antt =====
-- controllers/patchjob_controller.go: what is known of a node when its Kubernetes upgrade is completed.
pub mod RolledOut
pub mod Reconcile
