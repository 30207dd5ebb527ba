-- ===== src/RunFactory.antt =====
-- internal/runfactory: from an Agent and a sparse invocation to an immutable AgentRun snapshot.
-- `Errors` has the resolution errors, `Goal` the goal template, `Resolve` the snapshot, its delivery
-- and the names that are reserved for standing runs.
pub mod Errors
pub mod Goal
pub mod Resolve
