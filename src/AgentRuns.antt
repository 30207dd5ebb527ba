-- ===== src/AgentRuns.antt =====
-- internal/controller/agentrun_controller.go, agentrun_delivery.go and agentrun_delivery_credential.go:
-- the reconciler of AgentRuns. `Cluster` is what it calls, `Calls` the rules for what its actions ask
-- for, `Status` how it changes the status of a run, `Credential` the Secret of a Service's run, `PodBacked`
-- runs with a Pod of their own, `Delivery` runs that a standing Service serves.
pub mod Cluster
pub mod Calls
pub mod Status
pub mod Transitions
pub mod Credential
pub mod Secrets
pub mod PodBacked
pub mod Delivery
pub mod Reconcile
pub mod Life
pub mod Tests
pub mod ProgressTests
