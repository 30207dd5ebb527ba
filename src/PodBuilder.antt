-- ===== src/PodBuilder.antt =====
-- internal/podbuilder/podbuilder.go: the Pod of an AgentRun. `Core` has the part of the Kubernetes core
-- types that the source fills in, `Names` the Pod's name, `Env` the environment of its runtime container,
-- `Build` the Pod; `Labels` and `Reserved` are about the names and the environment.
pub mod Core
pub mod Names
pub mod Labels
pub mod Env
pub mod Reserved
pub mod Build
pub mod Tests
