-- ===== src/Api.antt =====
-- The resources that the operator works on.
pub mod Kube
pub mod Plan
pub mod Job
