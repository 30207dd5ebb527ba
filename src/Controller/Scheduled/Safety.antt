-- ===== src/Controller/Scheduled/Safety.antt =====
-- What each part of the Scheduled reconciler may change behind the pruning.
use kontext.Prelude.{
  ℕ, ◌+◌, ◌≡◌, ◌≢◌, refl, inl, inr, Bool, true, false, ◌&&◌, ◌∷◌, Option, none, some, Text, map_get,
  arith, Bool-cases, ltb_ℤ, ◌==◌, nat_eq, max_int32,
}
use kontext.Api.{Time, sub_time, ConcurrencyPolicy, forbid, Agent, AgentStatus, AgentRun}
use kontext.RunFactory.Resolve.{new_for_agent}
use kontext.Schedule.Policies.{Policy}
use kontext.Schedule.Slots.{latest_due}
use kontext.Schedule.RunNames.{run_name}
use kontext.Schedule.Metadata.{set_metadata}
use kontext.Controller.Kube.{
  Environment, create, CreateReply, created, already_exists, create_failed, History, raise, ◌>>=◌,
  create_run,
}
use kontext.Controller.Kube.Writes.{
  Changes, Changes-more, Changes-unless, writes, Quiet, Quiet-bind, Quiet-then, Quiet-pure,
  Quiet-raise, Quiet-spin, quiet_rules,
}
use kontext.Controller.Status.{set_agent_status-Quiet}
use kontext.Controller.Service.{Existing}
use kontext.Controller.Service.Safety.{verify-Quiet}
use kontext.Controller.Scheduled.{
  set_scheduled_waiting_status, set_scheduled_created_status, represented, verify_scheduled_run,
  wait, report_created, adopt, after_scheduled_create, create_scheduled, launch, fire, at_slot,
  initialize, suspend, from_next, scheduled_step, is_forbid,
}
use kontext.Controller.Scheduled.Runs.{ObservedScheduledRuns, scheduled_base_status}

module _ (env : Environment) (agent : Agent) where
  waiting-Quiet :
      (s : AgentStatus) (reason : Text) (m : _)
      → Quiet (set_scheduled_waiting_status env agent s reason m)
  unfolding set_scheduled_waiting_status
  waiting-Quiet s reason m = set_agent_status-Quiet env agent s _

  created-Quiet :
      (s : AgentStatus) (name : Text) (t : Time)
      → Quiet (set_scheduled_created_status env agent s name t)
  unfolding set_scheduled_created_status
  created-Quiet s name t = set_agent_status-Quiet env agent s _

  represented-Quiet : (e : Existing) → Quiet (represented env agent e)
  represented-Quiet none = search quiet_rules
  represented-Quiet (some (run, true)) = search quiet_rules
  represented-Quiet (some (run, false)) = search quiet_rules

  verify_scheduled-Quiet : (name : Text) (t : Time) → Quiet (verify_scheduled_run env agent name t)
  unfolding verify_scheduled_run
  verify_scheduled-Quiet name t = Quiet-bind _ _ (verify-Quiet env agent name _) represented-Quiet

  module _ (now : Time) (p : Policy) (runs : ObservedScheduledRuns) where
    report-Quiet :
        (s : AgentStatus) (name : Text) (due next : Time)
        → Quiet (report_created env agent now p runs s name due next)
    report-Quiet s name due next = Quiet-then _ _ (created-Quiet s name due) (Quiet-pure _)

    wait-Quiet :
        (s : AgentStatus) (next : Time) (reason : Text) (m : _)
        → Quiet (wait env agent now p runs s next reason m)
    wait-Quiet s next reason m = Quiet-then _ _ (waiting-Quiet s reason m) (Quiet-pure _)

    adopt-Quiet :
        (s : AgentStatus) (due next : Time) (n : ℕ) (o : Option AgentRun)
        → Quiet (adopt env agent now p runs s due next n o)
    adopt-Quiet s due next n none = search quiet_rules
    adopt-Quiet s due next n (some existing) = report-Quiet _ existing.name due next

    pub after-Quiet :
        (s : AgentStatus) (run : AgentRun) (due next : Time) (n : ℕ) (r : CreateReply)
        → Quiet (after_scheduled_create env agent now p runs s run due next n r)
    after-Quiet s run due next n create_failed = search quiet_rules
    after-Quiet s run due next n already_exists =
        Quiet-bind _ _ (verify_scheduled-Quiet _ due) (adopt-Quiet s due next n)
    after-Quiet s run due next n created = report-Quiet _ run.name due next

    create_scheduled-Changes :
        (s : AgentStatus) (due next : Time) (n : ℕ) (o : Option AgentRun) (h : History)
        → Changes
            (writes h)
            (λ run. (base : AgentRun) × (o ≡ some base) × (run ≡ set_metadata env.codec base due n))
            (writes (create_scheduled env agent now p runs s due next n o h).1)
    unfolding create_run ◌>>=◌ writes raise
    create_scheduled-Changes s due next n none h = inl refl
    create_scheduled-Changes s due next n (some base) h =
        let run = set_metadata env.codec base due n in
        inr (
          run,
          Quiet.at (after-Quiet s run due next n (env.create_run h run))
              (create run (env.create_run h run) ∷ h),
          (base, refl, refl),
        )

    -- The run of a slot: the Agent's snapshot under the slot's name, stamped with the slot and with
    -- the next number.
    pub record IsRunOf (due : Time) (count : ℕ) (run : AgentRun) : Type 0 where
      pub room : count ≢ max_int32
      pub base : AgentRun
      pub built :
          new_for_agent env.set_controller_reference agent
            (run_name env.hash8 agent.name due)
            agent.spec.goal
          ≡ some base
      pub stamped : run ≡ set_metadata env.codec base due (count + 1)

    launch-Changes :
        (s : AgentStatus) (due next : Time) (h : History)
        → Changes
            (writes h)
            (IsRunOf due s.runs_created)
            (writes (launch env agent now p runs s due next h).1)
    launch-Changes s due next h = elim (Bool-cases (s.runs_created == max_int32)) [
      | inl e ↦ rw e (inl (Quiet.at (Quiet-raise _) h))
      | inr e ↦ rw e (
          Changes-more _ _ _ _
            (λ run b.
              let (base, built, stamped) = b in
              record { room = ground arith; base = base; built = built; stamped = stamped })
            (create_scheduled-Changes s due next (s.runs_created + 1) _ h))
    ]

    -- No run has the slot, and under Forbid no run is active.
    abbrev Free : Time → Option AgentRun → Type 0
    Free due existing =
        (existing ≡ none) × (p.concurrency_policy ≡ forbid → runs.has_active ≡ false)

    forbid_inactive :
        (c : ConcurrencyPolicy) (a : Bool) → (is_forbid c && a) ≡ false → c ≡ forbid → a ≡ false
    forbid_inactive c a e f = ground arith

    fire-Changes :
        (s : AgentStatus) (due next : Time) (o : Option AgentRun) (h : History)
        → Changes
            (writes h)
            (λ run. IsRunOf due s.runs_created run × Free due o)
            (writes (fire env agent now p runs s due next o h).1)
    fire-Changes s due next (some existing) h =
        inl (Quiet.at (report-Quiet _ existing.name due next) h)
    fire-Changes s due next none h =
        elim (Bool-cases (is_forbid p.concurrency_policy && runs.has_active)) [
          | inl e ↦ rw e (inl (Quiet.at (wait-Quiet s next _ _) h))
          | inr e ↦ rw e (
              Changes-more _ _ _ _
                (λ run b.
                  (b, (refl, λ f. forbid_inactive p.concurrency_policy runs.has_active e f)))
                (launch-Changes s due next h))
        ]

    -- The slot is due, within the starting deadline, and free.
    pub record IsDue (count : ℕ) (slots : Option (Time × Time)) (run : AgentRun) : Type 0 where
      pub due : Time
      pub next : Time
      pub latest : slots ≡ some (due, next)
      pub is_due : due ≢ 0
      pub in_time : ltb_ℤ p.starting_deadline (sub_time now due) ≡ false
      pub free : Free due (map_get (env.codec.format due) runs.by_slot)
      pub run_of : IsRunOf due count run

    at_slot-Changes :
        (s : AgentStatus) (slots : Option (Time × Time)) (h : History)
        → Changes
            (writes h)
            (IsDue s.runs_created slots)
            (writes (at_slot env agent now p runs s slots h).1)
    at_slot-Changes s none h = inl (Quiet.at Quiet-spin h)
    at_slot-Changes s (some (due, next)) h = elim (Bool-cases (due == 0)) [
      | inl e ↦ rw e (inl (Quiet.at (wait-Quiet _ next _ _) h))
      | inr e ↦ elim (Bool-cases (ltb_ℤ p.starting_deadline (sub_time now due))) [
        | inl late ↦ rw (e, late) (inl (Quiet.at (wait-Quiet _ next _ _) h))
        | inr in_time ↦
            rw (e, in_time)
              (Changes-more _ _ _ _
                (λ run b. record {
                  due = due;
                  next = next;
                  latest = refl;
                  is_due = ground arith;
                  in_time = in_time;
                  free = b.1;
                  run_of = b.0;
                })
                (fire-Changes (record s { next_schedule_time = some next }) due next
                  (map_get (env.codec.format due) runs.by_slot) h))
      ]
    ]

    -- What is known of a scheduled run that is created from the retained runs.
    pub record IsScheduled (run : AgentRun) : Type 0 where
      pub observed : agent.status.observed_generation ≡ agent.generation
      pub active : p.suspend ≡ false
      pub first : Time
      pub expected : agent.status.next_schedule_time ≡ some first
      pub slot :
          IsDue
            (scheduled_base_status agent (some runs)).runs_created
            (latest_due (now + 2) p.schedule first now)
            run

    initialize-Quiet : (s : AgentStatus) → Quiet (initialize env agent now p runs s)
    initialize-Quiet s = Quiet-then _ _ (waiting-Quiet _ _ _) (Quiet-pure _)

    suspend-Quiet : (s : AgentStatus) → Quiet (suspend env agent now p runs s)
    suspend-Quiet s = Quiet-then _ _ (waiting-Quiet _ _ _) (Quiet-pure _)

    from_next-Changes :
        (o : Option Time) (h : History)
        → agent.status.next_schedule_time ≡ o
        → agent.status.observed_generation ≡ agent.generation
        → Changes (writes h) IsScheduled (
            writes (from_next env agent now p runs (scheduled_base_status agent (some runs)) o h).1)
    from_next-Changes none h e g =
        inl (Quiet.at (initialize-Quiet (scheduled_base_status agent (some runs))) h)
    from_next-Changes (some first) h e g =
        let s = scheduled_base_status agent (some runs) in
        Changes-unless _ p.suspend (suspend env agent now p runs s) _ h (suspend-Quiet s) λ b.
          Changes-more _ _ _ _
            (λ run d. record { observed = g; active = b; first = first; expected = e; slot = d })
            (at_slot-Changes s (latest_due (now + 2) p.schedule first now) h)

    pub scheduled_step-Changes :
        (h : History)
        → Changes (writes h) IsScheduled (writes (scheduled_step env agent now p runs h).1)
    unfolding scheduled_step
    scheduled_step-Changes h =
        elim (Bool-cases (agent.status.observed_generation == agent.generation)) [
          | inl e ↦ rw e (from_next-Changes agent.status.next_schedule_time h refl (ground arith))
          | inr e ↦
              rw e (inl (Quiet.at (initialize-Quiet (scheduled_base_status agent (some runs))) h))
        ]
