-- ===== src/Witnesses.antt =====
-- The theorems at concrete inputs.
mod Drains
mod Jobs
mod Matrices
mod Rollouts
mod Releases
mod Plans
mod Windows
