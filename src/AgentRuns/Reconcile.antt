-- ===== src/AgentRuns/Reconcile.antt =====
-- internal/controller/agentrun_controller.go: Reconcile, and the predicates of the two controllers.
use kontext.Prelude.{Bool, not, Option, none, some, Text, is_some}
use kontext.Api.{AgentRunDeliverySpec, AgentRun}
use kontext.Controller.Kube.{
  GetReply, found, not_found, get_failed, api_error, Action, pure, raise, ◌>>=◌, Requeue,
  no_requeue,
}
use kontext.AgentRuns.Cluster.{RunEnvironment, get_cached_run}
use kontext.AgentRuns.PodBacked.Reconcile.{reconcile_pod_backed}
use kontext.AgentRuns.Delivery.Reconcile.{reconcile_delivery}

-- isPodBackedAgentRun and isDeliveredAgentRun.
abbrev pub is_pod_backed_agent_run : AgentRun → Bool
is_pod_backed_agent_run run = not (is_some run.spec.delivery)

abbrev pub is_delivered_agent_run : AgentRun → Bool
is_delivered_agent_run run = is_some run.spec.delivery

module _ (env : RunEnvironment) where
  abbrev pub by_delivery : AgentRun → Option AgentRunDeliverySpec → Action Requeue
  by_delivery run (some d) = reconcile_delivery env run
  by_delivery run none = reconcile_pod_backed env run

  abbrev pub read_run : GetReply AgentRun → Action Requeue
  read_run get_failed = raise api_error
  read_run not_found = pure no_requeue
  read_run (found run) = by_delivery run run.spec.delivery

  unfoldable pub reconcile : Text → Text → Action Requeue
  reconcile ns name = get_cached_run env ns name >>= read_run
