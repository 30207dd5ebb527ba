-- ===== src/Controller/Service/Observe.antt =====
-- internal/controller/agent_controller.go: ownedRuns, observeServiceRuns and the status of what was
-- observed.
use kontext.Prelude.{
  ℕ, ◌-◌, Bool, not, List, [], ◌∷◌, Option, none, some, Text, ltb, ◌==◌, nat_eq, list_eq, is_some,
  if◌then◌else◌,
}
use kontext.Api.{Agent, AgentStatus, AgentRun}
use kontext.Controller.Kube.{Environment, no_uid, Action, pure, raise, ◌>>=◌, list_runs}
use kontext.Controller.Service.Suffix.{service_run_suffix}

module _ (env : Environment) where
  unfoldable pub owned_runs : Agent → Action (List AgentRun)
  owned_runs agent =
      if agent.uid == [] then raise no_uid else list_runs env agent.namespace agent.uid

pub record ObservedServiceRuns : Type 0 where
  pub current : Option AgentRun
  pub previous : Option AgentRun
  pub max_suffix : ℕ

-- The loop's variables.
pub record Seen : Type 0 where
  pub runs : ObservedServiceRuns
  pub previous_suffix : ℕ

abbrev pub nothing_seen : Seen
nothing_seen = record {
  runs = record { current = none; previous = none; max_suffix = 0 };
  previous_suffix = 0;
}

-- The switch: a new maximum, a new runner-up, or neither.
unfoldable pub rank : AgentRun → ℕ → Seen → Seen
rank run suffix s =
    if ltb s.runs.max_suffix suffix
    then record {
      runs = record { current = some run; previous = s.runs.current; max_suffix = suffix };
      previous_suffix = s.runs.max_suffix;
    }
    else if ltb s.previous_suffix suffix
    then record { runs = record s.runs { previous = some run }; previous_suffix = suffix }
    else s

-- A run that has a Pod of its own.
abbrev pub is_standing : AgentRun → Bool
is_standing run = not (is_some run.spec.delivery)

-- The number of a standing run; `none` for a run that the loop passes over.
unfoldable pub standing_suffix : Text → AgentRun → Option ℕ
standing_suffix agent_name run =
    if is_some run.spec.delivery then none else service_run_suffix agent_name run.name

abbrev pub rank_if : AgentRun → Option ℕ → Seen → Seen
rank_if run none s = s
rank_if run (some suffix) s = rank run suffix s

unfoldable pub observe_each : Text → List AgentRun → Seen → Seen
observe_each agent_name [] s = s
observe_each agent_name (run ∷ runs) s =
    observe_each agent_name runs (rank_if run (standing_suffix agent_name run) s)

unfoldable pub observe : Text → List AgentRun → ObservedServiceRuns
observe agent_name runs = (observe_each agent_name runs nothing_seen).runs

module _ (env : Environment) where
  unfoldable pub observe_service_runs : Agent → Action ObservedServiceRuns
  observe_service_runs agent = owned_runs env agent >>= λ runs. pure (observe agent.name runs)

abbrev name_or_empty : Option AgentRun → Text
name_or_empty none = []
name_or_empty (some run) = run.name

-- observedServiceRuns.status.
unfoldable pub status : ObservedServiceRuns → ℕ → AgentStatus
status runs generation = record {
  conditions = [];
  current_run_name = name_or_empty runs.current;
  last_run_name = name_or_empty runs.previous;
  runs_created = runs.max_suffix;
  restarts = if ltb 0 runs.max_suffix then runs.max_suffix - 1 else 0;
  last_schedule_time = none;
  next_schedule_time = none;
  observed_generation = generation;
}
