-- ===== src/Api.antt =====
-- api/v1alpha1: the custom resources. A Go pointer, slice or map that may be nil is an `Option`
-- where the code tests for nil; a map is an association list; a float64, which the code only
-- copies, is its 64 bits. int32 and int64 fields whose sign the code tests are integers.
-- `Meta` has the object metadata, `Agent` and `AgentRun` the two resources.
mod Meta
mod Agents
mod Runs
unfoldable pub use Meta.*
unfoldable pub use Agents.*
unfoldable pub use Runs.*
