-- ===== src/Controller/Status.antt =====
-- internal/controller/status.go and setAgentStatus of agent_controller.go; conditions.InvalidMode.
use kontext.Prelude.{ℕ, List, [], ◌∷◌, Text, text}
use kontext.Api.{
  Condition, ConditionStatus, condition_false, Message, sprintf, Agent, AgentStatus, AgentMode,
}
use kontext.RunFactory.Errors.{mode_text}
use kontext.Controller.Kube.{Environment, Action, pure, ◌>>=◌, clock, patch_agent_status}
use kontext.Controller.Kube.Writes.{
  Quiet, Quiet-bind, Quiet-pure, Quiet-clock, Quiet-patch_agent_status, quiet_rules,
}

-- internal/conditions: the types of conditions.
abbrev pub ready : Text
ready = text "Ready"

abbrev pub progressing : Text
progressing = text "Progressing"

-- A condition before the controller stamps it.
abbrev pub condition : Text → ConditionStatus → Text → Message → Condition
condition type status reason message = record {
  type = type;
  status = status;
  reason = reason;
  message = message;
  observed_generation = 0;
  last_transition_time = 0;
}

-- conditions.InvalidMode.
pub invalid_mode : AgentMode → List Condition
invalid_mode mode =
    condition ready condition_false (text "InvalidMode")
      (sprintf (text "Unknown agent mode %q.") (mode_text mode ∷ []))
    ∷ []

-- meta.SetStatusCondition.
abbrev pub SetStatusCondition : Type 0
SetStatusCondition = List Condition → Condition → List Condition

-- setStatusConditions: each update is stamped with the generation and set.
unfoldable pub set_status_conditions :
    SetStatusCondition → ℕ → List Condition → List Condition → List Condition
set_status_conditions set generation existing [] = existing
set_status_conditions set generation existing (c ∷ updates) =
    set_status_conditions set generation
      (set existing (record c { observed_generation = generation })) updates

module _ (env : Environment) where
  -- LastTransitionTime of each update is a reading of the clock.
  pub stamp_times : List Condition → Action (List Condition)
  stamp_times [] = pure []
  stamp_times (c ∷ cs) = do
    now ← clock env
    rest ← stamp_times cs
    pure (record c { last_transition_time = now } ∷ rest)

  pub set_agent_status : Agent → AgentStatus → List Condition → Action (Unit {0})
  set_agent_status agent next updates = do
    stamped ← stamp_times updates
    let conditions =
        set_status_conditions env.set_status_condition agent.generation agent.status.conditions
          stamped
    patch_agent_status env agent (record next { conditions = conditions })

  stamp_times-Quiet : (cs : List Condition) → Quiet (stamp_times cs)
  unfolding stamp_times
  stamp_times-Quiet [] = search quiet_rules
  stamp_times-Quiet (c ∷ cs) =
      Quiet-bind _ _ (Quiet-clock env)
        λ now. Quiet-bind _ _ (stamp_times-Quiet cs) λ rest. Quiet-pure _

  pub set_agent_status-Quiet :
      (agent : Agent) (next : AgentStatus) (updates : List Condition)
      → Quiet (set_agent_status agent next updates)
  unfolding set_agent_status
  set_agent_status-Quiet agent next updates =
      Quiet-bind _ _ (stamp_times-Quiet updates) λ stamped. Quiet-patch_agent_status env agent _
