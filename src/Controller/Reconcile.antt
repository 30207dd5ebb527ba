-- ===== src/Controller/Reconcile.antt =====
-- internal/controller/agent_controller.go: AgentReconciler.Reconcile.
use kontext.Api.{Agent, AgentMode, task, service, scheduled}
use kontext.Controller.Kube.{
  Environment, GetReply, found, not_found, get_failed, api_error, Action, pure, raise, ◌>>◌,
  Requeue, no_requeue,
}
use kontext.Controller.Status.{invalid_mode, set_agent_status}
use kontext.Controller.Service.{reconcile_service}
use kontext.Controller.Scheduled.{reconcile_scheduled}
use kontext.Controller.Task.{reconcile_task}

module _ (env : Environment) where
  abbrev by_mode : AgentMode → Agent → Action Requeue
  by_mode service agent = reconcile_service env agent
  by_mode scheduled agent = reconcile_scheduled env agent
  by_mode task agent = reconcile_task env agent
  by_mode (AgentMode.other mode) agent =
      set_agent_status env agent agent.status (invalid_mode (AgentMode.other mode))
      >> pure no_requeue

  -- The answer to Get of the request's Agent is an argument.
  pub reconcile : GetReply Agent → Action Requeue
  reconcile not_found = pure no_requeue
  reconcile get_failed = raise api_error
  reconcile (found agent) = by_mode agent.spec.mode agent
