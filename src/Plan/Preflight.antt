-- ===== src/Plan/Preflight.antt =====
-- controllers/preflight.go: the checks before the first job of a plan.
pub mod Report
pub mod Order
pub mod Conflicts
pub mod Nodes
pub mod Targets
pub mod Versions
pub mod Run
pub mod Ties
pub mod Blocked
