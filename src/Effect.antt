-- ===== src/Effect.antt =====
-- The calls that the controllers make, as trees of requests, and what can be said of them.
pub mod Request
pub mod Prog
pub mod Sat
pub mod Trace
