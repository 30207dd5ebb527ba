-- ===== src/RunFactory/Resolve/Tests.antt =====
-- Runs of ResolveInvocation and ValidateTask.
use kontext.Prelude.{
  ◌≡◌, ◌↔◌, refl, [], ◌∷◌, none, some, text, pos, list_beq, sort_texts, strip_prefix,
}
use kontext.Api.{Agent, AgentRun, AgentRunDeliverySpec, service, task, unset}
use kontext.Fixtures.{agent_of, agent_spec, task_agent, plain_runtime, run_of, no_run_spec, owner}
use kontext.RunFactory.Goal.Tests.{template, interpolate_goal_all}
use kontext.RunFactory.Resolve.{
  SetControllerReference, new_meta, new_spec, owned, new_for_agent, stamp, resolve_goal,
  resolve_service_goal, locked_fields, locked_invocation_fields, is_zero_runtime, supplied,
  refers_to, resolve_invocation, resolved, is_reserved_service_run_name, validate_task,
}
use kontext.RunFactory.Resolve.Snapshot.{Snapshot, resolve_invocation-Snapshot}
use kontext.RunFactory.Resolve.Delivery.{IsDeliverable, resolve_invocation-IsDeliverable}
use kontext.RunFactory.Resolve.Validity.{Resolvable, validate_task_iff}

abbrev set_owner : SetControllerReference
set_owner agent meta = some owner

-- A Service Agent with a delivery port, and an invocation of it.
abbrev delivering : Agent
delivering =
    let spec = agent_spec service (text "serve") template in
    agent_of (record spec {
      runtime = record plain_runtime { delivery = some (record { port = pos 8080 }) };
    })

abbrev fix_all : AgentRun
fix_all = record (run_of (text "fix-1") unset) {
  spec = record no_run_spec { parameters = some ((text "it", text "all") ∷ []) };
}

abbrev delivery : AgentRunDeliverySpec
delivery = record { port = pos 8080 }

abbrev fixing : AgentRun
fixing =
    stamp delivering fix_all (some delivery)
      (owned (new_meta delivering (text "fix-1")) (new_spec delivering (text "fix all")) owner)

fix_all-resolve : resolve_invocation set_owner (some delivering) (some fix_all) ≡ resolved fixing
unfolding resolve_invocation refers_to locked_invocation_fields locked_fields supplied
    is_zero_runtime sort_texts resolve_goal resolve_service_goal is_reserved_service_run_name
    strip_prefix new_for_agent list_beq
fix_all-resolve = rw interpolate_goal_all refl

fixing-delivery : fixing.spec.delivery ≡ some delivery
unfolding stamp
fixing-delivery = refl

resolve_invocation-Snapshot_example : Snapshot set_owner delivering fix_all fixing
resolve_invocation-Snapshot_example =
    resolve_invocation-Snapshot set_owner delivering fix_all fixing fix_all-resolve

resolve_invocation-IsDeliverable_example : IsDeliverable delivering fixing.name (pos 8080)
resolve_invocation-IsDeliverable_example =
    resolve_invocation-IsDeliverable set_owner delivering fix_all fixing delivery fix_all-resolve
      fixing-delivery

validate_task_example :
    (validate_task (some task_agent) ≡ none)
    ↔ ((task_agent.spec.mode ≡ task) × Resolvable task_agent.spec)
validate_task_example = validate_task_iff task_agent
