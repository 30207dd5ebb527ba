-- ===== src/RunFactory/Resolve/Delivery.antt =====
-- Runs that are warm-delivered to a standing Service runtime.
use kontext.Prelude.{
  ℕ, ◌≤◌, ◌≡◌, ◌≢◌, refl, ap, ◌∙◌, inl, inr, false, Option, some, Text, arith, nat_eq, list_eq,
  Option-cases, ℤ, pos, ◌≤ℤ◌, max_int32,
}
use kontext.Api.{AgentMode, task, service, scheduled, Agent, AgentRun, AgentRunDeliverySpec}
use kontext.RunFactory.Errors.{ok, Result-cases}
use kontext.RunFactory.Goal.{resolve_task_goal}
use kontext.RunFactory.Resolve.{
  SetControllerReference, resolve_service_goal, resolve_goal, resolved, resolve_invocation,
  is_reserved_service_run_name,
}
use kontext.RunFactory.Resolve.Names.{standing_name, is_reserved_service_run_name_iff}
use kontext.RunFactory.Resolve.Snapshot.{resolve_invocation-Snapshot}

-- A delivered run: its Agent is a Service with a port in range, and its name is that of no
-- standing run.
pub record IsDeliverable (agent : Agent) (name : Text) (port : ℤ) : Type 0 where
  pub is_service : agent.spec.mode ≡ service
  pub declared : agent.spec.runtime.delivery ≡ some (record { port = port })
  pub least : pos 1 ≤ℤ port
  pub most : port ≤ℤ pos 65535
  pub standing_free : (n : ℕ) → 1 ≤ n → n ≤ max_int32 → name ≢ standing_name agent.name n

service_goal_sound :
    (agent : Agent) (invocation : AgentRun) (port : ℤ) (g : Text) (d : Option AgentRunDeliverySpec)
    → resolve_service_goal agent invocation port ≡ ok (g, d)
    → (is_reserved_service_run_name agent.name invocation.name ≡ false)
      × (pos 1 ≤ℤ port)
      × (port ≤ℤ pos 65535)
      × (d ≡ some (record { port = port }))
unfolding resolve_service_goal
service_goal_sound agent invocation port g d h = ground arith

not_reserved :
    (a r : Text)
    → is_reserved_service_run_name a r ≡ false
    → (n : ℕ) → 1 ≤ n
    → n ≤ max_int32
    → r ≢ standing_name a n
not_reserved a r h n lo hi e = cc (h, (is_reserved_service_run_name_iff a r).1 (n, lo, hi, e))

goal-IsDeliverable :
    (mode : AgentMode) (agent : Agent) (invocation : AgentRun) (g : Text) (p : AgentRunDeliverySpec)
    → agent.spec.mode ≡ mode
    → resolve_goal mode agent invocation ≡ ok (g, some p)
    → IsDeliverable agent invocation.name p.port
unfolding resolve_goal
goal-IsDeliverable task agent invocation g p m h =
    elim (Result-cases (resolve_task_goal agent.spec invocation.spec.parameters)) [
      | inl (e, q) ↦ absurd (ground arith)
      | inr (t, q) ↦ absurd (ground arith)
    ]
goal-IsDeliverable service agent invocation g p m h =
    elim (Option-cases agent.spec.runtime.delivery) [
      | inl q ↦ absurd (ground arith)
      | inr (d, q) ↦
          let (r, lo, hi, e) =
            service_goal_sound agent invocation d.port g (some p) (ground arith) in
          let same : p.port ≡ d.port = ground arith in
          record {
            is_service = m;
            declared = ground arith;
            least = ground arith;
            most = ground arith;
            standing_free = not_reserved agent.name invocation.name r;
          }
    ]
goal-IsDeliverable scheduled agent invocation g p m h = absurd (ground arith)
goal-IsDeliverable (AgentMode.other t) agent invocation g p m h = absurd (ground arith)

-- A run that is resolved for warm delivery belongs to a Service Agent that declares its port, the
-- port is between 1 and 65535, and no standing run of the Agent can have the run's name.
pub resolve_invocation-IsDeliverable :
    (set_ref : SetControllerReference) (agent : Agent) (invocation run : AgentRun)
    (p : AgentRunDeliverySpec)
    → resolve_invocation set_ref (some agent) (some invocation) ≡ resolved run
    → run.spec.delivery ≡ some p
    → IsDeliverable agent run.name p.port
resolve_invocation-IsDeliverable set_ref agent invocation run p h e =
    let s = resolve_invocation-Snapshot set_ref agent invocation run h in
    rw s.name (
      goal-IsDeliverable agent.spec.mode agent invocation run.spec.goal p refl
        (s.goal ∙ ap (λ x. ok (run.spec.goal, x)) e))
