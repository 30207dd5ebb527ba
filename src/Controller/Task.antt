-- ===== src/Controller/Task.antt =====
-- internal/controller/agent_controller.go: Agents of mode Task. `Idle` is about what the reconciler
-- reports and changes.
pub mod Idle
use kontext.Prelude.{
  ℕ, zero, suc, ◌+◌, ◌≡◌, refl, Bool, true, false, ◌&&◌, ◌||◌, List, [], ◌∷◌, Option, none, some,
  Text, text, text_ltb, arith, ◌==◌, nat_eq, max_int32, if◌then◌else◌,
}
use kontext.Api.{
  after, Condition, condition_true, condition_false, plain, Agent, AgentStatus, AgentRun,
}
use kontext.RunFactory.Errors.{ResolutionError, error_message}
use kontext.RunFactory.Resolve.{validate_task}
use kontext.Controller.Kube.{
  Environment, too_many_runs, Action, pure, raise, ◌>>=◌, ◌>>◌, Requeue, no_requeue,
}
use kontext.Controller.Status.{ready, progressing, condition, set_agent_status}
use kontext.Controller.Service.Observe.{owned_runs}

abbrev is_newer : AgentRun → Option AgentRun → Bool
is_newer run none = true
is_newer run (some newest) =
    after run.creation_timestamp newest.creation_timestamp
    || (run.creation_timestamp == newest.creation_timestamp && text_ltb newest.name run.name)

-- The loop; `none` is the error of too many runs.
unfoldable pub newest_each : List AgentRun → Option AgentRun → ℕ → Option (Option AgentRun × ℕ)
newest_each [] newest retained = some (newest, retained)
newest_each (run ∷ runs) newest retained =
    let rest = newest_each runs (if is_newer run newest then some run else newest) (retained + 1) in
    if retained == max_int32 then none else rest

abbrev name_or_empty : Option AgentRun → Text
name_or_empty none = []
name_or_empty (some run) = run.name

abbrev task_status : Agent → Option AgentRun → ℕ → AgentStatus
task_status agent newest retained = record {
  conditions = [];
  current_run_name = [];
  last_run_name = name_or_empty newest;
  runs_created = retained;
  restarts = 0;
  last_schedule_time = none;
  next_schedule_time = none;
  observed_generation = agent.generation;
}

abbrev template_conditions : Option ResolutionError → List Condition
template_conditions (some e) =
    condition ready condition_false (text "InvalidTemplate") (error_message e)
    ∷ condition progressing condition_false (text "InvalidTemplate")
        (plain (text "Task invocations are blocked until the template is valid."))
    ∷ []
template_conditions none =
    condition ready condition_true (text "TemplateReady")
      (plain (text "Task template is ready for invocations."))
    ∷ condition progressing condition_false (text "Idle")
        (plain (text "Task Agents run only when an AgentRun is created."))
    ∷ []

module _ (env : Environment) where
  abbrev report_task : Agent → Option (Option AgentRun × ℕ) → Action Requeue
  report_task agent none = raise too_many_runs
  report_task agent (some (newest, retained)) =
      set_agent_status env agent (task_status agent newest retained)
        (template_conditions (validate_task (some agent)))
      >> pure no_requeue

  unfoldable pub reconcile_task : Agent → Action Requeue
  reconcile_task agent =
      owned_runs env agent >>= λ children. report_task agent (newest_each children none 0)
