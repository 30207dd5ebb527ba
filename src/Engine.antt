-- ===== src/Engine.antt =====
-- The reference runtime's core: runtimes/reference/internal/runtimeapi/types.go, conversation/state.go,
-- engine/limits.go, loop.go, engine.go and envelope.go, and internal/tooloutput/bound.go. `RuntimeApi` has
-- messages and their validation, `ToolOutput` the bound on a tool's output, `Limits` the limits of a
-- run, `Envelopes` what it reports, `Loop` the turns and the run.
pub mod RuntimeApi
pub mod ToolOutput
pub mod Bounds
pub mod Limits
pub mod Envelopes
pub mod Outputs
pub mod Loop
pub mod Tests
