-- ===== src/Controller/Scheduled/Progress.antt =====
-- When the Scheduled reconciler has to create the run of a slot.
use kontext.Prelude.{
  ℕ, ◌+◌, ◌≡◌, ◌≢◌, refl, sym, ap, ◌∙◌, inl, inr, Bool, true, false, ◌&&◌, not, List, [], ◌∷◌,
  Option, none, some, map_get, ◌==◌, nat_eq, list_eq, Bool-cases, eq_of_beq, beq_refl, arith, ltb_ℤ,
  max_int32, if◌then◌else◌,
}
use mathlib.Core.Path.{subst}
use kontext.Api.{Time, sub_time, ConcurrencyPolicy, forbid, Agent, AgentStatus, AgentRun}
use kontext.Schedule.Policies.{Policy, Parsed, policy, parse}
use kontext.Schedule.Slots.{latest_due}
use kontext.Schedule.Metadata.{set_metadata}
use kontext.Controller.Kube.{
  Action, Requeue, Environment, create, read_clock, listed, History, done, pure, ◌>>=◌, clock,
  create_run, list_runs,
}
use kontext.Controller.Kube.Writes.{Write, creates, writes, Quiet}
use kontext.Controller.Service.Observe.{owned_runs}
use kontext.Controller.Scheduled.{
  create_scheduled, launch, fire, at_slot, from_next, suspend, scheduled_step, is_forbid,
  with_policy, reconcile_scheduled,
}
use kontext.Controller.Scheduled.Runs.{
  ObservedScheduledRuns, observe_scheduled_runs, summarize_scheduled_runs, scheduled_base_status,
}
use kontext.Controller.Scheduled.History.{prune_scheduled_history}
use kontext.Controller.Scheduled.Retention.{Deletes, Deletes-more, prune_scheduled_history-Deletes}
use kontext.Controller.Scheduled.Safety.{after-Quiet, IsRunOf, IsDue, IsScheduled}
use kontext.Controller.Scheduled.Launching.{Owned, IsLaunched}

module _ (env : Environment) (agent : Agent) where
  module _ (now : Time) (p : Policy) (runs : ObservedScheduledRuns) where
    create_scheduled-creates :
        (s : AgentStatus) (due next : Time) (n : ℕ) (o : Option AgentRun) (base run : AgentRun)
        (h : History)
        → o ≡ some base
        → run ≡ set_metadata env.codec base due n
        → writes (create_scheduled env agent now p runs s due next n o h).1 ≡ creates run ∷ writes h
    unfolding create_run ◌>>=◌ writes
    create_scheduled-creates s due next n none base run h e m = absurd (cc e)
    create_scheduled-creates s due next n (some b) base run h e m =
        let same : b ≡ base = ground arith in
        let stamped = set_metadata env.codec b due n in
        Quiet.at (after-Quiet env agent now p runs s stamped due next n (env.create_run h stamped))
          (create stamped (env.create_run h stamped) ∷ h)
        ∙ ap (λ x. creates x ∷ writes h) (ap (λ x. set_metadata env.codec x due n) same ∙ sym m)

    launch-creates :
        (s : AgentStatus) (due next : Time) (run : AgentRun) (h : History)
        → IsRunOf env agent now p runs due s.runs_created run
        → writes (launch env agent now p runs s due next h).1 ≡ creates run ∷ writes h
    launch-creates s due next run h r = elim (Bool-cases (s.runs_created == max_int32)) [
      | inl e ↦ absurd (r.room (eq_of_beq s.runs_created max_int32 e))
      | inr e ↦ rw e (
          create_scheduled-creates s due next (s.runs_created + 1) _ r.base run h r.built r.stamped)
    ]

    overlap :
        (c : ConcurrencyPolicy) (a : Bool) → (c ≡ forbid → a ≡ false) → (is_forbid c && a) ≡ false
    overlap c false f = ground arith
    overlap c true f = ground (arith, f)

    fire-creates :
        (s : AgentStatus) (due next : Time) (o : Option AgentRun) (run : AgentRun) (h : History)
        → o ≡ none
        → (p.concurrency_policy ≡ forbid → runs.has_active ≡ false)
        → IsRunOf env agent now p runs due s.runs_created run
        → writes (fire env agent now p runs s due next o h).1 ≡ creates run ∷ writes h
    fire-creates s due next (some x) run h e f r = absurd (cc e)
    fire-creates s due next none run h e f r =
        rw (overlap p.concurrency_policy runs.has_active f) (launch-creates s due next run h r)

    -- A guard that lets pass.
    passing :
        (b : Bool) (m n : Action Requeue) (h : History)
        → b ≡ false
        → writes ((if b then m else n) h).1 ≡ writes (n h).1
    passing true m n h e = absurd (cc e)
    passing false m n h e = refl

    due-creates :
        (s : AgentStatus) (due next : Time) (run : AgentRun) (h : History)
        → due ≢ 0
        → ltb_ℤ p.starting_deadline (sub_time now due) ≡ false
        → map_get (env.codec.format due) runs.by_slot ≡ none
        → (p.concurrency_policy ≡ forbid → runs.has_active ≡ false)
        → IsRunOf env agent now p runs due s.runs_created run
        → writes (at_slot env agent now p runs s (some (due, next)) h).1 ≡ creates run ∷ writes h
    due-creates s due next run h nz late unused f r =
        let first : (due == 0) ≡ false = ground (arith, nz) in
        rw (first, late)
          (fire-creates (record s { next_schedule_time = some next }) due next
            (map_get (env.codec.format due) runs.by_slot) run h unused f r)

    at_slot-creates :
        (s : AgentStatus) (slots : Option (Time × Time)) (run : AgentRun) (h : History)
        → IsDue env agent now p runs s.runs_created slots run
        → writes (at_slot env agent now p runs s slots h).1 ≡ creates run ∷ writes h
    at_slot-creates s slots run h d =
        subst (λ o. writes (at_slot env agent now p runs s o h).1 ≡ creates run ∷ writes h)
          (sym d.latest)
          (due-creates s d.due d.next run h d.is_due d.in_time d.free.0 d.free.1 d.run_of)

    from_next-creates :
        (run : AgentRun) (h : History)
        → IsScheduled env agent now p runs run
        → writes
            (from_next env agent now p runs
              (scheduled_base_status agent (some runs))
              agent.status.next_schedule_time
              h).1
          ≡ creates run ∷ writes h
    from_next-creates run h k =
        let s = scheduled_base_status agent (some runs) in
        subst (λ o. writes (from_next env agent now p runs s o h).1 ≡ creates run ∷ writes h)
          (sym k.expected)
          (passing p.suspend (suspend env agent now p runs s) _ h k.active
            ∙ at_slot-creates s (latest_due (now + 2) p.schedule k.first now) run h k.slot)

    pub scheduled_step-creates :
        (run : AgentRun) (h : History)
        → IsScheduled env agent now p runs run
        → writes (scheduled_step env agent now p runs h).1 ≡ creates run ∷ writes h
    unfolding scheduled_step
    scheduled_step-creates run h k =
        passing (not (agent.status.observed_generation == agent.generation)) _ _ h
          (rw k.observed (rw (beq_refl agent.generation) refl))
        ∙ from_next-creates run h k

  with_policy-creates :
      (now : Time) (runs retained : ObservedScheduledRuns) (q : Parsed) (p : Policy)
      (run : AgentRun) (h : History)
      → q ≡ policy p
      → (prune_scheduled_history env p runs h).0 ≡ done retained
      → IsScheduled env agent now p retained run
      → writes (with_policy env agent now runs q h).1
        ≡ creates run ∷ writes (prune_scheduled_history env p runs h).1
  unfolding ◌>>=◌
  with_policy-creates now runs retained q p run h e d k =
      subst
        (λ q.
          writes (with_policy env agent now runs q h).1
          ≡ creates run ∷ writes (prune_scheduled_history env p runs h).1)
        (sym e)
        (rw d
          (scheduled_step-creates now p retained run (prune_scheduled_history env p runs h).1 k))

  -- A reconciliation of a Scheduled Agent with a UID creates every run that `IsLaunched` allows, after
  -- deletions of completed runs alone: the converse of what is known of a run that is created.
  pub reconcile_scheduled-creates :
      (h : History) (run : AgentRun)
      → agent.uid ≢ []
      → IsLaunched env agent h run
      → (mid : List Write) × Deletes (Owned env agent h) (writes h) mid
        × (writes (reconcile_scheduled env agent h).1 ≡ creates run ∷ mid)
  unfolding reconcile_scheduled observe_scheduled_runs owned_runs ◌>>=◌ list_runs clock writes pure
  reconcile_scheduled-creates h run uid l =
      let h' = listed agent.namespace agent.uid ∷ read_clock (env.now h) ∷ h in
      let runs = summarize_scheduled_runs env.codec l.children in
      elim (Bool-cases (agent.uid == [])) [
        | inl e ↦ absurd (uid (eq_of_beq agent.uid [] e))
        | inr e ↦ (
          writes (prune_scheduled_history env l.parsed runs h').1,
          Deletes-more (λ r k. (l.children, l.listing, k))
              (prune_scheduled_history-Deletes env l.parsed runs h'),
          rw (e, l.listing)
              (with_policy-creates (env.now h) runs l.retained (parse env.cron agent.spec.schedule)
                l.parsed run h' l.valid l.pruned l.scheduled),
        )
      ]
