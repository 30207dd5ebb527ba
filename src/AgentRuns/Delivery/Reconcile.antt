-- ===== src/AgentRuns/Delivery/Reconcile.antt =====
-- internal/controller/agentrun_delivery.go: reconcileDelivery.
use kontext.Prelude.{
  ◌||◌, not, Option, none, some, Text, text, ◌==◌, nat_eq, list_eq, if◌then◌else◌,
}
use kontext.Api.{before, Duration, Message, failed, is_terminal, AgentRun, AgentRunStatus}
use kontext.PodStatus.{PodObservation, observe_result_envelope}
use kontext.Result.{Envelope}
use kontext.Controller.Kube.{
  GetReply, found, not_found, get_failed, api_error, Action, pure, raise, ◌>>=◌, Requeue,
  no_requeue, requeue_in,
}
use kontext.AgentRuns.Cluster.{RunEnvironment, now, get_live_run, patch_status}
use kontext.AgentRuns.Status.{
  Wallclock, allowed, bad_limit, because, parse_wallclock_budget, time_or_now, with_conditions,
  for_agent_run_phase, transition_run, as_is,
}
use kontext.AgentRuns.Delivery.{
  Deadline, delivery_deadline, delivery_backoff, set_delivery_waiting, set_delivery_running,
  fail_delivery_timeout, exceed_delivery_budget,
}
use kontext.AgentRuns.Delivery.Target.{
  Target, Resolution, resolved, unavailable, misconfigured, resolve_delivery_target,
  confirm_delivery_target,
}
use kontext.AgentRuns.Delivery.Send.{Delivery, delivered, retryable, refused, deliver}

abbrev pub received : PodObservation → Text → AgentRunStatus → AgentRunStatus
received o pod_name next = record next {
  phase = o.phase;
  message = o.message;
  result = o.result;
  output = o.output;
  usage = o.usage;
  pod_name = pod_name;
}

module _ (env : RunEnvironment) where
  abbrev pub wait : AgentRun → Text → Message → Action Requeue
  wait run reason message = set_delivery_waiting env run reason message >>= λ after.
      delivery_backoff env after >>= λ d. pure (requeue_in d)

  abbrev pub fail : AgentRun → Message → Action Requeue
  fail run message = transition_run env run failed message as_is >>= λ _. pure no_requeue

  abbrev pub expire : AgentRun → Option Duration → Action Requeue
  expire run none = fail_delivery_timeout env run >>= λ _. pure no_requeue
  expire run (some limit) = exceed_delivery_budget env run limit >>= λ _. pure no_requeue

  -- To go on only before the deadline.
  abbrev pub before_deadline :
      AgentRun → Option Duration → (Deadline → Action Requeue) → Action Requeue
  before_deadline run limit go = now env >>= λ t.
      let d = delivery_deadline run limit t in
      if not (before t d.at) then expire run d.budget else go d

  -- To go on only with a target.
  abbrev pub with_target : AgentRun → (Target → Action Requeue) → Resolution → Action Requeue
  with_target run go (misconfigured message) = fail run message
  with_target run go (unavailable reason message) = wait run reason message
  with_target run go (resolved target) = go target

  unfoldable pub accept : AgentRun → Target → Envelope → Action Requeue
  accept run target envelope =
      let o = observe_result_envelope env.json envelope in
      time_or_now env run.status.completion_time >>= λ completion.
      patch_status env run (
        with_conditions env run
          (record (received o target.pod.name run.status) { completion_time = completion })
          (for_agent_run_phase o.phase))
      >>= λ _. pure no_requeue

  abbrev pub unreachable : AgentRun → Message → Action Requeue
  unreachable run message =
      wait run (text "TargetUnreachable")
        (because (text "Service delivery target is unreachable: ") message)

  unfoldable pub conclude : AgentRun → Option Duration → Delivery → Target → Action Requeue
  conclude run limit (refused message) target = fail run message
  conclude run limit (delivered envelope) target = accept run target envelope
  conclude run limit (retryable message) target =
      before_deadline run limit λ d. unreachable run message

  -- With the run as the server has it behind the delivery.
  abbrev pub with_latest :
      AgentRun → Option Duration → Target → Delivery → GetReply AgentRun → Action Requeue
  with_latest run limit target outcome get_failed = raise api_error
  with_latest run limit target outcome not_found = pure no_requeue
  with_latest run limit target outcome (found latest) =
      if not (latest.uid == run.uid) || is_terminal latest.status.phase
      then pure no_requeue
      else confirm_delivery_target env latest target
        >>= with_target latest (conclude latest limit outcome)

  unfoldable pub deliver_before : AgentRun → Option Duration → Target → Deadline → Action Requeue
  deliver_before run limit target d = deliver env run target d.at >>= λ outcome.
      get_live_run env run.namespace run.name >>= with_latest run limit target outcome

  unfoldable pub deliver_to : AgentRun → Option Duration → Target → Action Requeue
  deliver_to run limit target = set_delivery_running env run target.pod.name >>= λ after.
      confirm_delivery_target env after target
      >>= with_target after
          λ confirmed. before_deadline after limit (deliver_before after limit confirmed)

  abbrev pub resolve_and_deliver : AgentRun → Option Duration → Action Requeue
  resolve_and_deliver run limit =
      resolve_delivery_target env run >>= with_target run (deliver_to run limit)

  abbrev pub with_budget : AgentRun → Wallclock → Action Requeue
  with_budget run (bad_limit cause) =
      fail run (because (text "Agent run delivery configuration is invalid: ") cause)
  with_budget run (allowed limit) = before_deadline run limit λ d. resolve_and_deliver run limit

  unfoldable pub reconcile_delivery : AgentRun → Action Requeue
  reconcile_delivery run =
      if is_terminal run.status.phase
      then pure no_requeue
      else with_budget run (parse_wallclock_budget env run.spec.budget)
