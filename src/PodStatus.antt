-- ===== src/PodStatus.antt =====
-- internal/status/pod.go: what a Pod says of its AgentRun. A Pod is the part of its status that the
-- source reads.
pub mod Terminal
pub mod Tests
use kontext.Prelude.{
  ℕ, Bool, true, false, not, List, [], ◌∷◌, ◌++◌, Option, none, some, Text, text, trim_space, ◌==◌,
  nat_eq, list_eq, ℤ, pos, int_eq, show_int, if◌then◌else◌,
}
use kontext.Api.{
  Time, Message, plain, sprintf, AgentRunPhase, pending, running, succeeded, failed, OutputStatus,
  UsageStatus,
}
use kontext.Result.{
  Json, ResultOutcome, Envelope, ErrorInfo, Output, Usage, Parsed, parsed, malformed, parse,
  plain_text,
}

-- corev1.PodPhase.
pub data PodPhase : Type 0 where
  pod_pending pod_running pod_succeeded pod_failed : PodPhase
  other : Text → PodPhase

pub record Terminated : Type 0 where
  pub exit_code : ℤ
  pub message : Text

pub record Waiting : Type 0 where
  pub reason : Text
  pub message : Text

-- corev1.ContainerStatus; `running` holds StartedAt.
pub record ContainerStatus : Type 0 where
  pub name : Text
  pub ready : Bool
  pub running : Option Time
  pub terminated : Option Terminated
  pub waiting : Option Waiting

pub record Pod : Type 0 where
  pub phase : PodPhase
  pub container_statuses : List ContainerStatus

pub record PodObservation : Type 0 where
  pub phase : AgentRunPhase
  pub message : Message
  pub result : Text
  pub output : Option OutputStatus
  pub usage : Option UsageStatus
  pub started_at : Option Time

-- podbuilder.RuntimeContainerName.
abbrev pub runtime_container_name : Text
runtime_container_name = text "runtime"

abbrev pub only : AgentRunPhase → Message → PodObservation
only phase message = record {
  phase = phase;
  message = message;
  result = [];
  output = none;
  usage = none;
  started_at = none;
}

pub runtime_container_status : List ContainerStatus → Option ContainerStatus
runtime_container_status [] = none
runtime_container_status (c ∷ cs) =
    if c.name == runtime_container_name then some c else runtime_container_status cs

pub output_status : Option Output → Option OutputStatus
output_status none = none
output_status (some o) = some (record { media_type = o.media_type; value = o.value })

pub usage_status : Option Usage → Option UsageStatus
usage_status none = none
usage_status (some u) = some (record {
  tokens = u.total_tokens;
  input_tokens = u.input_tokens;
  output_tokens = u.output_tokens;
  dollars = u.dollars;
})

-- `%s %s` with the message of an error, if there is one.
abbrev with_error : Message → Option ErrorInfo → Message
with_error m none = m
with_error m (some e) = record { format = m.format ++ text " %s"; args = m.args ++ e.message ∷ [] }

abbrev is_failed_outcome : ResultOutcome → Bool
is_failed_outcome ResultOutcome.failed = true
is_failed_outcome _ = false

module _ (json : Json) where
  pub observe_result_envelope : Envelope → PodObservation
  observe_result_envelope e =
      let succeeded' : PodObservation = record {
        phase = succeeded;
        message = plain (text "Agent run completed successfully.");
        result = plain_text json e.output;
        output = output_status e.output;
        usage = usage_status e.usage;
        started_at = none;
      } in
      if is_failed_outcome e.outcome
      then record succeeded' {
        phase = failed;
        message = with_error (plain (text "Agent runtime reported a failed outcome.")) e.error;
      }
      else succeeded'

  abbrev exit_message : Terminated → Message
  exit_message t = sprintf (text "Agent run exited with code %d.") (show_int t.exit_code ∷ [])

  -- A code other than 0. On a parse error the envelope is the zero one.
  abbrev failed_exit : Terminated → Parsed → PodObservation
  failed_exit t (malformed m) = record (only failed (exit_message t)) {
    message = record (exit_message t) {
      format =
          text
            "Agent run exited with code %d. (malformed termination payload: parse termination payload: %v)";
    };
    result = trim_space t.message;
  }
  failed_exit t (parsed e legacy) = record {
    phase = failed;
    message = with_error (exit_message t) e.error;
    result = plain_text json e.output;
    output = output_status e.output;
    usage = usage_status e.usage;
    started_at = none;
  }

  abbrev zero_exit : Parsed → PodObservation
  zero_exit (malformed m) = only failed (
      plain (
        text
          "Agent run exited 0 but the termination payload was malformed: parse termination payload: %v"))
  zero_exit (parsed e legacy) = observe_result_envelope e

  pub observation_from_termination : Terminated → PodObservation
  observation_from_termination t =
      let p = parse json (trim_space t.message) in
      if t.exit_code == pos 0 then zero_exit p else failed_exit t p

  abbrev waiting_message : Waiting → Message
  waiting_message w =
      if w.message == []
      then sprintf (text "Waiting: %s") (w.reason ∷ [])
      else sprintf (text "Waiting: %s (%s)") (w.reason ∷ w.message ∷ [])

  abbrev streaming : Option Time → PodObservation
  streaming started = record (only running (plain (text "Agent run pod is streaming thoughts."))) {
    started_at = started;
  }

  -- The switch on the Pod's phase.
  abbrev by_pod_phase : PodPhase → PodObservation
  by_pod_phase pod_running = streaming none
  by_pod_phase pod_succeeded = only succeeded (plain (text "Agent run pod completed."))
  by_pod_phase pod_failed = only failed (plain (text "Agent run pod failed."))
  by_pod_phase _ = only pending (plain (text "Agent run pod status is not available yet."))

  abbrev by_waiting : PodPhase → Option Waiting → PodObservation
  by_waiting phase none = by_pod_phase phase
  by_waiting phase (some w) =
      if w.reason == [] then by_pod_phase phase else only pending (waiting_message w)

  abbrev by_terminated : PodPhase → Option Terminated → Option Waiting → PodObservation
  by_terminated phase (some t) w = observation_from_termination t
  by_terminated phase none w = by_waiting phase w

  abbrev by_running : PodPhase → Option Time → ContainerStatus → PodObservation
  by_running phase (some started) c = streaming (some started)
  by_running phase none c = by_terminated phase c.terminated c.waiting

  abbrev by_container : PodPhase → Option ContainerStatus → PodObservation
  by_container phase none = by_pod_phase phase
  by_container phase (some c) = by_running phase c.running c

  abbrev by_status : PodPhase → Option ContainerStatus → PodObservation
  by_status pod_pending c = only pending (plain (text "Agent run pod is waiting to start."))
  by_status phase c = by_container phase c

  pub observe_pod : Pod → PodObservation
  observe_pod pod = by_status pod.phase (runtime_container_status pod.container_statuses)
