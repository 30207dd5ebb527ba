-- ===== src/AgentRuns/Status.antt =====
-- The status of an AgentRun: ForAgentRunPhase of internal/conditions/conditions.go, and transitionRun and
-- parseWallclockBudget of internal/controller/agentrun_controller.go.
use kontext.Prelude.{
  Bool, true, false, List, [], ◌∷◌, ◌++◌, Option, none, some, Text, text, ◌==◌, nat_eq, list_eq,
  pos, leb_ℤ, if◌then◌else◌,
}
use kontext.Api.{
  Time, Duration, Condition, condition_true, condition_false, Message, plain, sprintf, BudgetSpec,
  AgentRunPhase, unset, pending, running, succeeded, failed, budget_exceeded, is_terminal, AgentRun,
  AgentRunStatus,
}
use kontext.Controller.Kube.{Action, pure, ◌>>=◌}
use kontext.Controller.Status.{progressing, condition, set_status_conditions}
use kontext.AgentRuns.Cluster.{RunEnvironment, now, patch_status}

-- conditions.Complete.
abbrev pub complete : Text
complete = text "Complete"

abbrev pub phase_text : AgentRunPhase → Text
phase_text unset = []
phase_text pending = text "Pending"
phase_text running = text "Running"
phase_text succeeded = text "Succeeded"
phase_text failed = text "Failed"
phase_text budget_exceeded = text "BudgetExceeded"

abbrev is_running : AgentRunPhase → Bool
is_running running = true
is_running _ = false

unfoldable pub for_agent_run_phase : AgentRunPhase → List Condition
for_agent_run_phase phase =
    if is_terminal phase
    then condition complete condition_true (phase_text phase) (plain (text "Agent run finished."))
      ∷ condition progressing condition_false (phase_text phase)
          (plain (text "Agent run is no longer active."))
      ∷ []
    else if is_running phase
    then condition complete condition_false (text "Running") (plain (text "Agent run is active."))
      ∷ condition progressing condition_true (text "Running")
          (plain (text "Agent run pod is executing."))
      ∷ []
    else condition complete condition_false (phase_text phase)
        (plain (text "Agent run has not completed."))
      ∷ condition progressing condition_true (phase_text phase)
          (plain (text "Agent run is starting."))
      ∷ []

-- A limit or none, or an error, without the wrapped error of the library.
pub data Wallclock : Type 0 where
  allowed : Option Duration → Wallclock
  bad_limit : Message → Wallclock

-- `text`, the error, and a full stop.
abbrev pub because : Text → Message → Message
because t m = record { format = t ++ m.format ++ text "."; args = m.args }

module _ (env : RunEnvironment) where
  abbrev positive : Text → Option Duration → Wallclock
  positive wallclock none =
      bad_limit (sprintf (text "invalid wallclock budget %q: %w") (wallclock ∷ []))
  positive wallclock (some d) =
      if leb_ℤ d (pos 0)
      then bad_limit
          (sprintf (text "invalid wallclock budget %q: duration must be positive") (wallclock ∷ []))
      else allowed (some d)

  unfoldable pub parse_wallclock_budget : Option BudgetSpec → Wallclock
  parse_wallclock_budget none = allowed none
  parse_wallclock_budget (some b) =
      if b.wallclock == []
      then allowed none
      else positive b.wallclock (env.parse_duration b.wallclock)

  -- A time that is set stays; otherwise it is the clock's.
  abbrev pub time_or_now : Option Time → Action (Option Time)
  time_or_now (some t) = pure (some t)
  time_or_now none = now env >>= λ t. pure (some t)

  abbrev pub completion_for : AgentRunPhase → Option Time → Action (Option Time)
  completion_for phase current = if is_terminal phase then time_or_now current else pure none

  abbrev pub with_conditions : AgentRun → AgentRunStatus → List Condition → AgentRunStatus
  with_conditions run next updates = record next {
    conditions =
        set_status_conditions env.set_status_condition run.generation next.conditions updates;
  }

  unfoldable pub transition_run :
      AgentRun → AgentRunPhase → Message → (AgentRunStatus → AgentRunStatus) → Action AgentRun
  transition_run run phase message update =
      let next = update (record run.status { phase = phase; message = message }) in
      completion_for phase next.completion_time >>= λ completion. patch_status env run (
        with_conditions run (record next { completion_time = completion })
          (for_agent_run_phase phase))

-- The update that changes nothing more.
abbrev pub as_is : AgentRunStatus → AgentRunStatus
as_is next = next

abbrev pub with_pod_name : Text → AgentRunStatus → AgentRunStatus
with_pod_name name next = record next { pod_name = name }
