-- ===== src/AgentRuns/Delivery/Target.antt =====
-- internal/controller/agentrun_delivery.go: resolveDeliveryTarget, confirmDeliveryTarget and
-- deliveryPodReady.
use kontext.Prelude.{
  Bool, true, false, ◌&&◌, ◌||◌, not, List, [], ◌∷◌, Option, none, some, Text, text, ◌==◌, nat_eq,
  list_eq, ℤ, int_eq, is_some, if◌then◌else◌,
}
use kontext.Api.{
  AgentMode, service, Agent, AgentRef, AgentRunDeliverySpec, RuntimeDeliverySpec, Message, plain,
  sprintf, AgentRun,
}
use kontext.PodStatus.{ContainerStatus, runtime_container_name}
use kontext.PodBuilder.Core.{PodCondition, Pod}
use kontext.Controller.Kube.{
  GetReply, found, not_found, get_failed, api_error, no_api_reader, Action, pure, raise, ◌>>=◌,
}
use kontext.AgentRuns.Cluster.{RunEnvironment, get_live_agent, get_live_run, get_live_pod}
use kontext.AgentRuns.Credential.{
  Loaded, credential, no_secret, invalid_credential, load_delivery_credential,
}
use kontext.AgentRuns.PodBacked.{is_pod_running, is_running}

-- resolvedDeliveryTarget.
pub record Target : Type 0 where
  pub pod : Pod
  pub credential : Text

-- A target, deliveryUnavailable, or deliveryConfigurationError.
pub data Resolution : Type 0 where
  resolved : Target → Resolution
  unavailable : Text → Message → Resolution
  misconfigured : Message → Resolution

abbrev pub is_service : AgentMode → Bool
is_service service = true
is_service _ = false

-- Whether the first condition of type Ready with status True is found.
unfoldable pub has_ready : List PodCondition → Bool
has_ready [] = false
has_ready (c ∷ cs) = (c.type == text "Ready" && c.status == text "True") || has_ready cs

-- The runtime container's status, the first of that name.
unfoldable pub runtime_ready : List ContainerStatus → Bool
runtime_ready [] = false
runtime_ready (c ∷ cs) =
    let rest = runtime_ready cs in
    if c.name == runtime_container_name then c.ready && is_some c.running else rest

unfoldable pub delivery_pod_ready : Pod → Bool
delivery_pod_ready pod =
    if is_some pod.deletion_timestamp || not (is_pod_running pod.status.phase) || pod.pod_ip == []
    then false
    else has_ready pod.conditions && runtime_ready pod.status.container_statuses

-- The port that is compared; the source reads it only of a run with delivery.
abbrev pub run_port : Option AgentRunDeliverySpec → Option ℤ
run_port none = none
run_port (some d) = some d.port

abbrev pub runtime_port : Option RuntimeDeliverySpec → Option ℤ
runtime_port none = none
runtime_port (some d) = some d.port

abbrev pub same_port : Option ℤ → Option ℤ → Bool
same_port (some p) (some q) = p == q
same_port _ _ = false

abbrev pub not_ready : Text → Resolution
not_ready t = unavailable (text "TargetNotReady") (plain t)

abbrev pub recasting : Text → Resolution
recasting t = unavailable (text "ServiceRecasting") (plain t)

unfoldable pub same_target : Target → Target → Bool
same_target current expected =
    not (expected.pod.uid == [])
    && current.pod.uid == expected.pod.uid
    && current.pod.namespace == expected.pod.namespace
    && current.pod.name == expected.pod.name
    && current.pod.pod_ip == expected.pod.pod_ip
    && current.credential == expected.credential

unfoldable pub confirmed : Target → Resolution → Resolution
confirmed expected (unavailable reason message) = unavailable reason message
confirmed expected (misconfigured message) = misconfigured message
confirmed expected (resolved current) =
    if same_target current expected
    then resolved current
    else unavailable (text "TargetChanged")
        (plain (text "Standing Service Pod identity changed during delivery."))

module _ (env : RunEnvironment) where
  abbrev pub with_credential : Pod → Loaded → Action Resolution
  with_credential pod (credential token) =
      pure (resolved (record { pod = pod; credential = token }))
  with_credential pod no_secret =
      pure (not_ready (text "Referenced Service Agent is waiting for its delivery credential."))
  with_credential pod invalid_credential =
      pure (misconfigured (plain (text "Standing Service delivery credential is invalid: %v.")))

  abbrev pub pod_reply : AgentRun → GetReply Pod → Action Resolution
  pod_reply standing get_failed = raise api_error
  pod_reply standing not_found =
      pure (recasting (text "Referenced Service Agent's standing Pod is being replaced."))
  pod_reply standing (found pod) =
      if not (env.is_controlled_by_run pod.meta standing) || not (delivery_pod_ready pod)
      then pure
          (not_ready (text "Referenced Service Agent's standing Pod is not ready for delivery."))
      else load_delivery_credential env standing >>= with_credential pod

  abbrev pub is_unready : Agent → AgentRun → Bool
  is_unready agent standing =
      not (env.is_controlled_by_agent standing.meta agent)
      || is_some standing.spec.delivery
      || not (is_running standing.status.phase)
      || standing.status.pod_name == []

  abbrev pub standing_reply : AgentRun → Agent → GetReply AgentRun → Action Resolution
  standing_reply run agent get_failed = raise api_error
  standing_reply run agent not_found =
      pure (recasting (text "Referenced Service Agent is replacing its standing run."))
  standing_reply run agent (found standing) =
      if is_unready agent standing
      then pure
          (not_ready (text "Referenced Service Agent's standing run is not ready for delivery."))
      else if not
          (same_port (runtime_port standing.spec.runtime.delivery) (run_port run.spec.delivery))
      then pure (
          recasting
            (text "Waiting for a standing Service runtime compatible with the delivery snapshot."))
      else get_live_pod env run.namespace standing.status.pod_name >>= pod_reply standing

  abbrev pub agent_reply : AgentRun → Text → GetReply Agent → Action Resolution
  agent_reply run name get_failed = raise api_error
  agent_reply run name not_found = pure (
      unavailable (text "TargetMissing")
        (sprintf (text "Referenced Service Agent %s is not available.") (name ∷ [])))
  agent_reply run name (found agent) =
      if not (is_service agent.spec.mode) || not (env.is_controlled_by_agent run.meta agent)
      then pure (
          misconfigured
            (plain (text "Agent run delivery target is not the referenced owning Service Agent.")))
      else if agent.status.current_run_name == []
      then pure (
          unavailable (text "WaitingForService")
            (plain (text "Referenced Service Agent does not have a standing run yet.")))
      else get_live_run env run.namespace agent.status.current_run_name >>= standing_reply run agent

  abbrev pub no_agent_ref : Action Resolution
  no_agent_ref = pure (
      misconfigured
        (plain (text "Agent run delivery configuration is invalid: agentRef is required.")))

  abbrev pub by_ref : AgentRun → Option AgentRef → Action Resolution
  by_ref run none = no_agent_ref
  by_ref run (some ref) =
      if ref.name == []
      then no_agent_ref
      else get_live_agent env run.namespace ref.name >>= agent_reply run ref.name

  unfoldable pub resolve_delivery_target : AgentRun → Action Resolution
  resolve_delivery_target run =
      if not env.has_api_reader then raise no_api_reader else by_ref run run.spec.agent_ref

  unfoldable pub confirm_delivery_target : AgentRun → Target → Action Resolution
  confirm_delivery_target run expected =
      resolve_delivery_target run >>= λ r. pure (confirmed expected r)
