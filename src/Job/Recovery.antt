-- ===== src/Job/Recovery.antt =====
-- controllers/patchjob_controller.go: what is known of a node when its job leaves Rebooting.
pub mod Reached
pub mod Recovered
pub mod Reads
pub mod Failing
pub mod StaticPods
pub mod Shared
pub mod Health
pub mod Reboot
pub mod Reconcile
