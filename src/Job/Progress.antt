-- ===== src/Job/Progress.antt =====
-- controllers/patchjob_controller.go: how a reconcile ends.
pub mod Ends
pub mod Shared
pub mod Phases
pub mod Reboot
pub mod Reconcile
