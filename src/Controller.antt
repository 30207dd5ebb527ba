-- ===== src/Controller.antt =====
-- internal/controller: the reconcilers. `Kube` is their environment, the API server and the
-- libraries; `Status` writes an Agent's status; `Service`, `Task` and `Scheduled` are the three
-- modes of the Agent reconciler.
pub mod Kube
pub mod Status
pub mod Service
pub mod Task
pub mod Scheduled
pub mod Reconcile
pub mod Tests
