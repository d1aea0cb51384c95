-- ===== src/Plan/Creation.antt =====
-- controllers/scheduler.go: when scheduleNodes may create a job.
pub mod Starts
pub mod Kept
pub mod Gate
pub mod Rooms
pub mod Nodes
pub mod Steady
pub mod Slots
pub mod Increments
pub mod Counting
pub mod Policies
pub mod Before
pub mod Preflight
pub mod Templates
pub mod Reasons
pub mod Budget
pub mod Recorded
pub mod Going
pub mod Reconcile
