-- ===== src/Controller/Service.antt =====
-- internal/controller/agent_controller.go: Agents of mode Service. `Suffix` reads a standing run's
-- number, `Observe` finds the latest one, `Backoff` is the delay before a recast; `Standing`,
-- `Safety`, `Minting` and `Progress` prove when the reconciler mints a run, and which.
pub mod Suffix
pub mod Observe
pub mod Backoff
pub mod Standing
pub mod Safety
pub mod Minting
pub mod Progress
use kontext.Prelude.{
  ℕ, zero, suc, ◌+◌, ◌-◌, Bool, true, false, ◌&&◌, not, List, [], ◌∷◌, ◌++◌, Option, none, some,
  Text, text, ◌==◌, nat_eq, list_eq, is_some, ℤ, pos, ltb_ℤ, ◌-ℤ◌, show_nat, max_int32,
  if◌then◌else◌,
}
use kontext.Api.{
  Time, Duration, sub_time, Condition, condition_true, condition_false, plain, sprintf, Agent,
  AgentStatus, AgentRun, is_terminal,
}
use kontext.RunFactory.Resolve.{new_for_agent}
use kontext.Controller.Kube.{
  Environment, CreateReply, created, already_exists, create_failed, GetReply, found, not_found,
  get_failed, ControllerError, api_error, no_api_reader, reference_failed, suffix_exhausted,
  name_collision, Action, pure, raise, ◌>>=◌, ◌>>◌, Requeue, no_requeue, requeue_now, requeue_in,
  wrap_int, clock, create_run, get_run,
}
use kontext.Controller.Status.{ready, progressing, condition, set_agent_status}
use kontext.Controller.Service.Observe.{
  ObservedServiceRuns, is_standing, observe_service_runs, status,
}
use kontext.Controller.Service.Backoff.{backoff_delay}

-- What verifyExistingOwnedRun found: the run, and whether it was accepted.
abbrev pub Existing : Type 0
Existing = Option (AgentRun × Bool)

abbrev name_of_next : Agent → ℕ → Text
name_of_next agent n = agent.name ++ text "-" ++ show_nat n

abbrev missing_goal : List Condition
missing_goal =
    condition ready condition_false (text "MissingGoal")
      (plain (text "Service agents require spec.goal."))
    ∷ []

abbrev run_active : Text → List Condition
run_active name =
    condition ready condition_true (text "RunActive")
      (sprintf (text "Service run %s is active.") (name ∷ []))
    ∷ condition progressing condition_false (text "RunActive")
        (plain (text "Live service run is active."))
    ∷ []

abbrev recasting : Text → List Condition
recasting name =
    condition ready condition_false (text "Recasting")
      (sprintf (text "Minted service run %s.") (name ∷ []))
    ∷ condition progressing condition_true (text "Recasting")
        (plain (text "Service run is being created."))
    ∷ []

abbrev name_or_empty : Option AgentRun → Text
name_or_empty none = []
name_or_empty (some run) = run.name

abbrev minted_status : Agent → Option AgentRun → Text → ℕ → AgentStatus
minted_status agent current run_name n = record {
  conditions = [];
  current_run_name = run_name;
  last_run_name = name_or_empty current;
  runs_created = n;
  restarts = n - 1;
  last_schedule_time = none;
  next_schedule_time = none;
  observed_generation = agent.generation;
}

module _ (env : Environment) where
  abbrev judge : Agent → (AgentRun → Bool) → GetReply AgentRun → Action Existing
  judge agent accept not_found = pure none
  judge agent accept get_failed = raise api_error
  judge agent accept (found run) =
      pure (some (run, env.is_controlled_by run.meta agent && accept run))

  pub verify_existing_owned_run : Agent → Text → (AgentRun → Bool) → Action Existing
  verify_existing_owned_run agent run_name accept =
      if not env.has_api_reader
      then raise no_api_reader
      else (get_run env agent.namespace run_name >>= judge agent accept)

  abbrev collide : Existing → Action Requeue
  collide none = pure requeue_now
  collide (some (run, true)) = pure requeue_now
  collide (some (run, false)) = raise name_collision

  pub handle_service_run_already_exists : Agent → Text → Action Requeue
  handle_service_run_already_exists agent run_name =
      verify_existing_owned_run agent run_name is_standing >>= collide

  abbrev after_create : Agent → Option AgentRun → AgentRun → Text → ℕ → CreateReply → Action Requeue
  after_create agent current run run_name n create_failed = raise api_error
  after_create agent current run run_name n already_exists =
      handle_service_run_already_exists agent run_name
  after_create agent current run run_name n created = do
    set_agent_status env agent (minted_status agent current run.name n) (recasting run.name)
    pure (requeue_in (pos 2000000000))

  abbrev create_minted : Agent → Option AgentRun → Text → ℕ → Option AgentRun → Action Requeue
  create_minted agent current run_name n none = raise reference_failed
  create_minted agent current run_name n (some run) =
      create_run env run >>= after_create agent current run run_name n

  -- The end of reconcileService: the next run is minted.
  pub mint : Agent → ObservedServiceRuns → Action Requeue
  mint agent runs =
      if runs.max_suffix == max_int32
      then raise suffix_exhausted
      else create_minted agent runs.current (name_of_next agent (runs.max_suffix + 1))
          (runs.max_suffix + 1)
          (new_for_agent env.set_controller_reference agent
            (name_of_next agent (runs.max_suffix + 1)) agent.spec.goal)

  abbrev wait_or_mint : Agent → ObservedServiceRuns → Duration → Duration → Action Requeue
  wait_or_mint agent runs delay since =
      if ltb_ℤ since delay
      then (set_agent_status env agent (status runs agent.generation) []
          >> pure (requeue_in (wrap_int (delay -ℤ since))))
      else mint agent runs

  -- Under a terminal run with a completion time, the backoff since then.
  abbrev after_terminal : Agent → ObservedServiceRuns → Option Time → Action Requeue
  after_terminal agent runs none = mint agent runs
  after_terminal agent runs (some completed) = do
    now ← clock env
    wait_or_mint agent runs (backoff_delay agent.spec.backoff (pos runs.max_suffix -ℤ pos 1))
        (sub_time now completed)

  pub recast : Agent → ObservedServiceRuns → Option AgentRun → Action Requeue
  recast agent runs none = mint agent runs
  recast agent runs (some current) =
      if not (is_terminal current.status.phase)
      then (set_agent_status env agent (status runs agent.generation) (run_active current.name)
          >> pure no_requeue)
      else after_terminal agent runs current.status.completion_time

  abbrev with_goal : Agent → ObservedServiceRuns → Action Requeue
  with_goal agent runs =
      if agent.spec.goal == []
      then (set_agent_status env agent (status runs agent.generation) missing_goal
          >> pure no_requeue)
      else recast agent runs runs.current

  pub reconcile_service : Agent → Action Requeue
  reconcile_service agent = observe_service_runs env agent >>= with_goal agent
