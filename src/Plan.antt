-- ===== src/Plan.antt =====
-- The controller of PatchPlans: controllers/patchplan_controller.go, scheduler.go, leases.go and
-- retention.go, a module for the operations of each part. An operation that changes the plan returns
-- it, as its status stands after the patch.
pub mod Status
pub mod Jobs
pub mod Leases
pub mod Retention
pub mod Summary
pub mod Policy
pub mod KubeProxy
pub mod Schedule
pub mod Totals
pub mod Purging
pub mod Mirroring
pub mod Creation
pub mod Preflight
pub mod AutoUpdate
pub mod Reconcile
