-- ===== src/Controller/Scheduled.antt =====
-- internal/controller/agent_scheduled.go: Agents of mode Scheduled. `Runs` summarizes the owned runs
-- and `History` prunes the completed ones; `Retention` and `Limits` are about what the pruning deletes
-- and keeps, `Summary` about the summary, and `Safety`, `Launching` and `Progress` about the run that
-- a reconciliation creates, `Exclusive` about what it shares the Agent with.
pub mod Runs
pub mod History
pub mod Sorting
pub mod Retention
pub mod Limits
pub mod Safety
pub mod Launching
pub mod Progress
pub mod Summary
pub mod Exclusive
pub mod Tests
pub mod LaunchTests
use kontext.Prelude.{
  ℕ, zero, suc, ◌+◌, Bool, true, false, ◌&&◌, not, List, [], ◌∷◌, Option, none, some, Text, text,
  ltb, map_get, ◌==◌, nat_eq, ℤ, pos, ltb_ℤ, leb_ℤ, show_nat, max_int32, if◌then◌else◌,
}
use kontext.Api.{
  Time, Duration, sub_time, is_zero, ConcurrencyPolicy, unset, allow, forbid, Condition,
  condition_true, condition_false, Message, plain, sprintf, Agent, AgentStatus, AgentRun,
}
use kontext.RunFactory.Resolve.{new_for_agent}
use kontext.Schedule.Policies.{CronSchedule, Policy, Parsed, policy, invalid, parse}
use kontext.Schedule.Slots.{latest_due}
use kontext.Schedule.RunNames.{run_name}
use kontext.Schedule.Metadata.{set_metadata, represents_slot}
use kontext.Controller.Kube.{
  Environment, CreateReply, created, already_exists, create_failed, counter_exhausted,
  reference_failed, api_error, name_collision, Action, pure, raise, spin, ◌>>=◌, ◌>>◌, Requeue,
  no_requeue, requeue_now, requeue_in, clock, create_run,
}
use kontext.Controller.Status.{ready, progressing, condition, set_agent_status}
use kontext.Controller.Service.{Existing, verify_existing_owned_run}
use kontext.Controller.Scheduled.Runs.{
  ObservedScheduledRuns, observe_scheduled_runs, scheduled_base_status,
  recover_scheduled_run_status,
}
use kontext.Controller.Scheduled.History.{prune_scheduled_history}

abbrev invalid_schedule : Message → List Condition
invalid_schedule message =
    condition ready condition_false (text "InvalidSchedule") message
    ∷ condition progressing condition_false (text "InvalidSchedule")
        (plain (text "Scheduled reconciliation is blocked by an invalid schedule."))
    ∷ []

abbrev waiting : Text → Message → List Condition
waiting reason message =
    condition ready condition_true reason message
    ∷ condition progressing condition_false reason message
    ∷ []

abbrev skipped : Text → Text → Message
skipped format slot_text = sprintf format (slot_text ∷ [])

pub requeue_at : Time → Time → Requeue
requeue_at now next =
    let delay = sub_time next now in if leb_ℤ delay (pos 0) then requeue_now else requeue_in delay

abbrev initial_reason : Agent → Policy → Text
initial_reason agent p =
    if p.suspend
    then text "Suspended"
    else if agent.status.observed_generation == 0
    then text "ScheduleInitialized"
    else text "ScheduleUpdated"

abbrev suspended_message : Message
suspended_message = plain (text "Scheduled run creation is suspended.")

abbrev initial_message : Agent → Policy → Message
initial_message agent p =
    if p.suspend
    then suspended_message
    else if agent.status.observed_generation == 0
    then plain (text "Schedule initialized; waiting for the first future slot.")
    else plain (text "Schedule generation observed; waiting for the next future slot.")

abbrev is_forbid : ConcurrencyPolicy → Bool
is_forbid forbid = true
is_forbid _ = false

module _ (env : Environment) (agent : Agent) where
  pub set_scheduled_waiting_status : AgentStatus → Text → Message → Action (Unit {0})
  set_scheduled_waiting_status next reason message =
      set_agent_status env agent next (waiting reason message)

  pub set_scheduled_created_status : AgentStatus → Text → Time → Action (Unit {0})
  set_scheduled_created_status next run_name slot = set_agent_status env agent next (
      condition ready condition_true (text "RunCreated") (
        sprintf (text "Created scheduled run %s for slot %s.")
          (run_name ∷ env.codec.format slot ∷ []))
      ∷ condition progressing condition_true (text "RunCreated")
          (sprintf (text "Scheduled run %s is progressing.") (run_name ∷ []))
      ∷ [])

  abbrev represented : Existing → Action (Option AgentRun)
  represented none = pure none
  represented (some (run, true)) = pure (some run)
  represented (some (run, false)) = raise name_collision

  pub verify_scheduled_run : Text → Time → Action (Option AgentRun)
  verify_scheduled_run run_name slot =
      verify_existing_owned_run env agent run_name (λ run. represents_slot env.codec run slot)
      >>= represented

  -- From here on, what the reconciler knows: the time, the policy, and the retained runs.
  module _ (now : Time) (p : Policy) (runs : ObservedScheduledRuns) where
    abbrev wait : AgentStatus → Time → Text → Message → Action Requeue
    wait next_status next reason message =
        set_scheduled_waiting_status next_status reason message >> pure (requeue_at now next)

    abbrev report_created : AgentStatus → Text → Time → Time → Action Requeue
    report_created next_status name due next =
        set_scheduled_created_status next_status name due >> pure (requeue_at now next)

    abbrev at_least : ℕ → AgentStatus → AgentStatus
    at_least n next_status = record next_status {
      runs_created = if ltb next_status.runs_created n then n else next_status.runs_created;
    }

    abbrev adopt : AgentStatus → Time → Time → ℕ → Option AgentRun → Action Requeue
    adopt next_status due next n none = pure requeue_now
    adopt next_status due next n (some existing) =
        report_created
          (at_least n (recover_scheduled_run_status next_status existing due runs.latest_due))
          existing.name due next

    abbrev after_scheduled_create :
        AgentStatus → AgentRun → Time → Time → ℕ → CreateReply → Action Requeue
    after_scheduled_create next_status run due next n create_failed = raise api_error
    after_scheduled_create next_status run due next n already_exists =
        verify_scheduled_run (run_name env.hash8 agent.name due) due
        >>= adopt next_status due next n
    after_scheduled_create next_status run due next n created =
        report_created
          (record next_status {
            runs_created = n;
            last_run_name = run.name;
            last_schedule_time = some due;
          })
          run.name due next

    abbrev create_scheduled : AgentStatus → Time → Time → ℕ → Option AgentRun → Action Requeue
    create_scheduled next_status due next n none = raise reference_failed
    create_scheduled next_status due next n (some run) =
        let stamped = set_metadata env.codec run due n in
        create_run env stamped >>= after_scheduled_create next_status stamped due next n

    abbrev launch : AgentStatus → Time → Time → Action Requeue
    launch next_status due next =
        if next_status.runs_created == max_int32
        then raise counter_exhausted
        else create_scheduled next_status due next (next_status.runs_created + 1) (
            new_for_agent env.set_controller_reference agent (run_name env.hash8 agent.name due)
              agent.spec.goal)

    -- A due slot within its deadline, with the retained run that has it.
    abbrev fire : AgentStatus → Time → Time → Option AgentRun → Action Requeue
    fire next_status due next (some existing) =
        report_created (recover_scheduled_run_status next_status existing due runs.latest_due)
          existing.name due next
    fire next_status due next none =
        if is_forbid p.concurrency_policy && runs.has_active
        then wait next_status next (text "OverlapSkipped") (
            skipped (text "Skipped slot %s because an owned run is active.") (env.codec.format due))
        else launch next_status due next

    -- What LatestDue returned.
    abbrev at_slot : AgentStatus → Option (Time × Time) → Action Requeue
    at_slot next_status none = spin
    at_slot next_status (some (due, next)) =
        let next_status' = record next_status { next_schedule_time = some next } in
        if is_zero due
        then wait next_status' next (text "WaitingForSchedule")
            (skipped (text "Next run is scheduled for %s.") (env.codec.format next))
        else if ltb_ℤ p.starting_deadline (sub_time now due)
        then wait next_status' next (text "MissedDeadline") (
            skipped (text "Skipped slot %s because its starting deadline expired.")
              (env.codec.format due))
        else fire next_status' due next (map_get (env.codec.format due) runs.by_slot)

    abbrev initialize : AgentStatus → Action Requeue
    initialize next_status =
        let next = p.schedule now in
        set_scheduled_waiting_status (record next_status { next_schedule_time = some next })
          (initial_reason agent p) (initial_message agent p)
        >> pure (if p.suspend then no_requeue else requeue_at now next)

    abbrev suspend : AgentStatus → Action Requeue
    suspend next_status =
        set_scheduled_waiting_status
          (record next_status { next_schedule_time = some (p.schedule now) }) (text "Suspended")
          suspended_message
        >> pure no_requeue

    -- The status has a next slot of this generation, or not.
    abbrev from_next : AgentStatus → Option Time → Action Requeue
    from_next next_status none = initialize next_status
    from_next next_status (some first_due) =
        if p.suspend
        then suspend next_status
        else at_slot next_status (latest_due (now + 2) p.schedule first_due now)

    pub scheduled_step : Action Requeue
    scheduled_step =
        let next_status = scheduled_base_status agent (some runs) in
        if not (agent.status.observed_generation == agent.generation)
        then initialize next_status
        else from_next next_status agent.status.next_schedule_time

  abbrev with_policy : Time → ObservedScheduledRuns → Parsed → Action Requeue
  with_policy now runs (invalid message) =
      set_agent_status env agent (scheduled_base_status agent (some runs))
        (invalid_schedule message)
      >> pure no_requeue
  with_policy now runs (policy p) = prune_scheduled_history env p runs >>= scheduled_step now p

  pub reconcile_scheduled : Action Requeue
  reconcile_scheduled = do
    now ← clock env
    runs ← observe_scheduled_runs env agent
    with_policy now runs (parse env.cron agent.spec.schedule)
