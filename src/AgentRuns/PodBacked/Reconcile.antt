-- ===== src/AgentRuns/PodBacked/Reconcile.antt =====
-- internal/controller/agentrun_controller.go: Reconcile of a run without delivery.
use kontext.Prelude.{not, [], Option, none, some, Text, ◌==◌, nat_eq, list_eq, if◌then◌else◌}
use kontext.Api.{Duration, AgentRunPhase, budget_exceeded, is_terminal, AgentRun}
use kontext.PodBuilder.Core.{Pod}
use kontext.PodBuilder.Names.{legacy_pod_name_for_run}
use kontext.Controller.Kube.{
  GetReply, found, not_found, get_failed, api_error, no_api_reader, Action, pure, raise, ◌>>=◌,
  ◌>>◌, Requeue, no_requeue,
}
use kontext.AgentRuns.Cluster.{RunEnvironment, get_cached_pod, get_live_pod}
use kontext.AgentRuns.Status.{Wallclock, allowed, bad_limit, parse_wallclock_budget}
use kontext.AgentRuns.PodBacked.{
  Located, missing, located, Enforced, pod_name_of, delete_budget_exceeded_pod,
  fail_pod_name_collision, reconcile_missing_pod, sync_pod_observation, fail_invalid_wallclock,
  enforce_wallclock,
}

module _ (env : RunEnvironment) where
  abbrev pub adopt : AgentRun → Text → Text → GetReply Pod → Action Located
  adopt run pod_name legacy get_failed = raise api_error
  adopt run pod_name legacy not_found = pure (missing pod_name)
  adopt run pod_name legacy (found pod) =
      if env.is_controlled_by_run pod.meta run
      then pure (located legacy pod)
      else pure (missing pod_name)

  abbrev pub find_legacy : AgentRun → Text → Action Located
  find_legacy run pod_name =
      let legacy = legacy_pod_name_for_run run.name in
      if legacy == pod_name
      then pure (missing pod_name)
      else get_cached_pod env run.namespace legacy >>= adopt run pod_name legacy

  abbrev pub live_reply : Text → GetReply Pod → Action Located
  live_reply pod_name get_failed = raise api_error
  live_reply pod_name not_found = pure (missing pod_name)
  live_reply pod_name (found pod) = pure (located pod_name pod)

  abbrev pub verify_missing : AgentRun → Text → Action Located
  verify_missing run pod_name =
      if not env.has_api_reader
      then raise no_api_reader
      else get_live_pod env run.namespace pod_name >>= live_reply pod_name

  abbrev pub cached_reply : AgentRun → Text → GetReply Pod → Action Located
  cached_reply run pod_name get_failed = raise api_error
  cached_reply run pod_name (found pod) = pure (located pod_name pod)
  cached_reply run pod_name not_found =
      if run.status.pod_name == [] then find_legacy run pod_name else verify_missing run pod_name

  unfoldable pub find_pod : AgentRun → Action Located
  find_pod run =
      let pod_name = pod_name_of env run in
      get_cached_pod env run.namespace pod_name >>= cached_reply run pod_name

  abbrev pub after_enforced : Pod → Text → Enforced → Action Requeue
  after_enforced pod pod_name e =
      if is_terminal e.run.status.phase
      then pure e.requeue
      else sync_pod_observation env e.run pod pod_name >>= λ _. pure e.requeue

  abbrev pub with_limit : AgentRun → Text → Option Duration → Option Pod → Action Requeue
  with_limit run pod_name limit none = reconcile_missing_pod env run pod_name
  with_limit run pod_name limit (some pod) =
      enforce_wallclock env run pod limit >>= after_enforced pod pod_name

  abbrev pub with_budget : AgentRun → Located → Wallclock → Action Requeue
  with_budget run l (bad_limit cause) = fail_invalid_wallclock env run l.pod cause
  with_budget run l (allowed limit) = with_limit run l.pod_name limit l.pod

  abbrev pub with_owned : AgentRun → Located → Action Requeue
  with_owned run l = with_budget run l (parse_wallclock_budget env run.spec.budget)

  abbrev pub with_pod : AgentRun → Text → Option Pod → Action Requeue
  with_pod run pod_name none = with_owned run (missing pod_name)
  with_pod run pod_name (some pod) =
      if not (env.is_controlled_by_run pod.meta run)
      then fail_pod_name_collision env run pod
      else with_owned run (located pod_name pod)

  abbrev pub ended : AgentRun → AgentRunPhase → Action Requeue
  ended run budget_exceeded = delete_budget_exceeded_pod env run >> pure no_requeue
  ended run _ = pure no_requeue

  unfoldable pub reconcile_pod_backed : AgentRun → Action Requeue
  reconcile_pod_backed run =
      if is_terminal run.status.phase
      then ended run run.status.phase
      else find_pod run >>= λ l. with_pod run l.pod_name l.pod
