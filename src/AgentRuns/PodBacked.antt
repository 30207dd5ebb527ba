-- ===== src/AgentRuns/PodBacked.antt =====
-- internal/controller/agentrun_controller.go: AgentRuns with a Pod of their own, the steps; `Reconcile`
-- has the reconciliation.
pub mod Reconcile
pub mod Safety
pub mod Conforms
pub mod Progress
use kontext.Prelude.{
  Bool, true, false, not, List, [], ◌∷◌, Option, none, some, Text, text, ◌==◌, nat_eq, list_eq, pos,
  negsuc, ◌-ℤ◌, leb_ℤ, is_some, if◌then◌else◌,
}
use kontext.Api.{
  Time, Duration, sub_time, OwnerReference, Message, plain, sprintf, AgentRunPhase, pending,
  running, failed, budget_exceeded, is_terminal, OutputStatus, UsageStatus, AgentRun,
  AgentRunStatus, RuntimeDeliverySpec,
}
use kontext.PodStatus.{PodPhase, pod_running, PodObservation, observe_pod}
use kontext.PodBuilder.Core.{Pod}
use kontext.PodBuilder.Names.{pod_name_for_run, legacy_pod_name_for_run}
use kontext.PodBuilder.Env.{Built, built, invalid}
use kontext.PodBuilder.Build.{build_pod_with_config}
use kontext.Controller.Kube.{
  CreateReply, create_failed, GetReply, found, not_found, get_failed, DeleteReply, delete_failed,
  api_error, no_api_reader, reference_failed, Action, pure, raise, ◌>>=◌, ◌>>◌, Requeue, no_requeue,
  requeue_in, wrap_int,
}
use kontext.AgentRuns.Cluster.{
  RunEnvironment, now, get_live_pod, create_pod, delete_pod, patch_status,
}
use kontext.AgentRuns.Status.{
  because, time_or_now, with_conditions, for_agent_run_phase, transition_run, as_is, with_pod_name,
}
use kontext.AgentRuns.Credential.{ensure_delivery_credential}

-- The Pod of a run under the name that is tried, if there is one.
pub record Located : Type 0 where
  pub pod_name : Text
  pub pod : Option Pod

abbrev pub missing : Text → Located
missing name = record { pod_name = name; pod = none }

abbrev pub located : Text → Pod → Located
located name pod = record { pod_name = name; pod = some pod }

-- enforceWallclock leaves the run in memory changed.
pub record Enforced : Type 0 where
  pub requeue : Requeue
  pub run : AgentRun

abbrev pub is_pod_running : PodPhase → Bool
is_pod_running pod_running = true
is_pod_running _ = false

abbrev pub is_running : AgentRunPhase → Bool
is_running running = true
is_running _ = false

abbrev pub invalid_configuration : Message → Message
invalid_configuration = because (text "Agent run configuration is invalid: ")

-- The result, output, usage and start of a run that never had its Pod.
abbrev pub cleared : Text → AgentRunStatus → AgentRunStatus
cleared name next = record next {
  pod_name = name;
  result = [];
  output = none;
  usage = none;
  start_time = none;
}

abbrev pub started : Text → Time → AgentRunStatus → AgentRunStatus
started name at next = record next { pod_name = name; start_time = some at }

abbrev pub first_of : Option Time → Option Time → Option Time
first_of none b = b
first_of (some a) b = some a

-- limit - elapsed + time.Second, in int64.
abbrev pub remaining_and_second : Duration → Duration → Duration
remaining_and_second limit elapsed = wrap_int (wrap_int (limit -ℤ elapsed) -ℤ negsuc 999999999)

abbrev pub keep_output : Option OutputStatus → Text → AgentRunStatus → AgentRunStatus
keep_output none result next = next
keep_output (some o) result next = record next { output = some o; result = result }

abbrev pub keep_usage : Option UsageStatus → AgentRunStatus → AgentRunStatus
keep_usage none next = next
keep_usage (some u) next = record next { usage = some u }

abbrev pub observed : PodObservation → Text → AgentRunStatus → AgentRunStatus
observed o name next = keep_usage o.usage (
    keep_output o.output o.result
      (record next { phase = o.phase; pod_name = name; message = o.message }))

module _ (env : RunEnvironment) where
  abbrev pub ignoring_missing : DeleteReply → Action (Unit {0})
  ignoring_missing delete_failed = raise api_error
  ignoring_missing _ = pure tt

  -- Delete, where a Pod that is gone is no error.
  abbrev pub remove_pod : Pod → Action (Unit {0})
  remove_pod pod = delete_pod env pod >>= ignoring_missing

  abbrev pub pod_name_of : AgentRun → Text
  pod_name_of run =
      if run.status.pod_name == [] then pod_name_for_run env.hash8 run.name else run.status.pod_name

  abbrev pub delete_if_owned : AgentRun → GetReply Pod → Action (Unit {0})
  delete_if_owned run get_failed = raise api_error
  delete_if_owned run not_found = pure tt
  delete_if_owned run (found pod) =
      if not (env.is_controlled_by_run pod.meta run) then pure tt else remove_pod pod

  unfoldable pub delete_budget_exceeded_pod : AgentRun → Action (Unit {0})
  delete_budget_exceeded_pod run =
      if not env.has_api_reader
      then raise no_api_reader
      else get_live_pod env run.namespace (pod_name_of run) >>= delete_if_owned run

  unfoldable pub fail_pod_name_collision : AgentRun → Pod → Action Requeue
  fail_pod_name_collision run pod =
      transition_run env run failed
        (sprintf (text "Pod name collision: Pod %s/%s is not controlled by AgentRun %s/%s.")
          (pod.namespace ∷ pod.name ∷ run.namespace ∷ run.name ∷ []))
        (cleared pod.name)
      >>= λ _. pure no_requeue

  abbrev pub credential_secret : AgentRun → Option RuntimeDeliverySpec → Action Text
  credential_secret run none = pure []
  credential_secret run (some d) = ensure_delivery_credential env run

  abbrev pub owned_pod : Pod → OwnerReference → Pod
  owned_pod pod ref = record pod { meta = record pod.meta { controller = some ref } }

  abbrev pub after_create : AgentRun → Text → CreateReply → Action Requeue
  after_create run pod_name create_failed = raise api_error
  after_create run pod_name _ =
      transition_run env run pending (plain (text "Agent run pod requested."))
        (with_pod_name pod_name)
      >>= λ _. pure no_requeue

  abbrev pub create_owned : AgentRun → Text → Pod → Option OwnerReference → Action Requeue
  create_owned run pod_name pod none = raise reference_failed
  create_owned run pod_name pod (some ref) =
      create_pod env (owned_pod pod ref) >>= after_create run pod_name

  abbrev pub create_built : AgentRun → Text → Built Pod → Action Requeue
  create_built run pod_name (invalid m) =
      transition_run env run failed (invalid_configuration m) as_is >>= λ _. pure no_requeue
  create_built run pod_name (built pod) =
      create_owned run pod_name pod (env.set_controller_reference run pod.meta)

  unfoldable pub reconcile_missing_pod : AgentRun → Text → Action Requeue
  reconcile_missing_pod run pod_name =
      if not (run.status.pod_name == [])
      then (transition_run env run failed (plain (text "Pod lost before run completed."))
            (with_pod_name pod_name)
          >>= λ _. pure no_requeue)
      else credential_secret run run.spec.runtime.delivery >>= λ secret. create_built run pod_name (
          build_pod_with_config env.hash8 env.show_float run
            (record { reporter_image = env.reporter_image; delivery_credential_secret = secret }))

  abbrev pub start_for : PodObservation → Option Time → Action (Option Time)
  start_for o (some t) = pure (some t)
  start_for o none = if is_running o.phase then time_or_now env o.started_at else pure none

  abbrev pub completion_of : PodObservation → Option Time → Action (Option Time)
  completion_of o current = if is_terminal o.phase then time_or_now env current else pure current

  unfoldable pub sync_pod_observation : AgentRun → Pod → Text → Action AgentRun
  sync_pod_observation run pod pod_name =
      let o = observe_pod env.json pod.status in
      start_for o run.status.start_time >>= λ start.
      completion_of o run.status.completion_time >>= λ completion. patch_status env run (
        with_conditions env run
          (record (observed o pod_name run.status) {
            start_time = start;
            completion_time = completion;
          })
          (for_agent_run_phase o.phase))

  abbrev pub remove_existing : Option Pod → Action (Unit {0})
  remove_existing none = pure tt
  remove_existing (some pod) = remove_pod pod

  abbrev pub existing_name : Option Pod → AgentRunStatus → AgentRunStatus
  existing_name none = as_is
  existing_name (some pod) = with_pod_name pod.name

  unfoldable pub fail_invalid_wallclock : AgentRun → Option Pod → Message → Action Requeue
  fail_invalid_wallclock run pod cause =
      remove_existing pod
      >> (transition_run env run failed (invalid_configuration cause) (existing_name pod) >>= λ _.
          pure no_requeue)

  abbrev pub exceed : AgentRun → Pod → Duration → Time → Action Enforced
  exceed run pod limit started_at =
      transition_run env run budget_exceeded
        (sprintf (text "Wallclock budget exceeded after %s.") (env.show_duration limit ∷ []))
        (started pod.name started_at)
      >>= λ after. remove_pod pod >> pure (record { requeue = no_requeue; run = after })

  abbrev pub enforce_since : AgentRun → Pod → Duration → Option Time → Action Enforced
  enforce_since run pod limit none = pure (record { requeue = no_requeue; run = run })
  enforce_since run pod limit (some started_at) = now env >>= λ t.
      let elapsed = sub_time t started_at in
      if leb_ℤ elapsed limit
      then pure (record { requeue = requeue_in (remaining_and_second limit elapsed); run = run })
      else exceed run pod limit started_at

  unfoldable pub enforce_wallclock : AgentRun → Pod → Option Duration → Action Enforced
  enforce_wallclock run pod none = pure (record { requeue = no_requeue; run = run })
  enforce_wallclock run pod (some limit) =
      if not (is_pod_running pod.status.phase)
      then pure (record { requeue = no_requeue; run = run })
      else enforce_since run pod limit
          (first_of (observe_pod env.json pod.status).started_at run.status.start_time)
