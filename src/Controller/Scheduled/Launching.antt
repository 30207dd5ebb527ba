-- ===== src/Controller/Scheduled/Launching.antt =====
-- What a reconciliation of a Scheduled Agent creates and deletes.
use kontext.Prelude.{
  ◌≡◌, refl, inl, inr, List, [], ◌∷◌, Option, none, some, Bool-cases, ◌==◌, nat_eq, list_eq,
}
use kontext.Api.{Time, Agent, AgentRun}
use kontext.Schedule.Policies.{Policy, Parsed, policy, invalid, parse}
use kontext.Controller.Kube.{
  Environment, read_clock, listed, History, Outcome, done, failed, stuck, raise, carry_on, ◌>>=◌,
  clock, list_runs, outcome_of, pure,
}
use kontext.Controller.Kube.Writes.{
  Write, Changes, Changes-more, writes, Quiet, Quiet-then, Quiet-pure,
}
use kontext.Controller.Status.{set_agent_status-Quiet}
use kontext.Controller.Service.Observe.{owned_runs}
use kontext.Controller.Scheduled.{reconcile_scheduled, with_policy, scheduled_step}
use kontext.Controller.Scheduled.Runs.{
  ObservedScheduledRuns, observe_scheduled_runs, summarize_scheduled_runs,
}
use kontext.Controller.Scheduled.History.{prune_scheduled_history}
use kontext.Controller.Scheduled.Retention.{
  Deletes, Deletes-more, no_more, Completed, prune_scheduled_history-Deletes,
}
use kontext.Controller.Scheduled.Safety.{IsScheduled, scheduled_step-Changes}

-- First runs of `D` are deleted, then nothing or one run of `P` is created.
abbrev pub Replaces : List Write → (AgentRun → Type 0) → (AgentRun → Type 0) → List Write → Type 0
Replaces ws D P ws' = (mid : List Write) × Deletes D ws mid × Changes mid P ws'

module _ (env : Environment) (agent : Agent) where
  -- What is known of a run that is created: the owned runs were listed, the schedule is valid, the
  -- completed runs beyond its limits were pruned, and the run is that of the latest due slot.
  pub record IsLaunched (h : History) (run : AgentRun) : Type 0 where
    pub children : List AgentRun
    pub listing :
        env.list_owned (read_clock (env.now h) ∷ h) agent.namespace agent.uid ≡ some children
    pub parsed : Policy
    pub valid : parse env.cron agent.spec.schedule ≡ policy parsed
    pub retained : ObservedScheduledRuns
    pub pruned :
        (prune_scheduled_history env parsed
          (summarize_scheduled_runs env.codec children)
          (listed agent.namespace agent.uid ∷ read_clock (env.now h) ∷ h)).0
        ≡ done retained
    pub scheduled : IsScheduled env agent (env.now h) parsed retained run

  abbrev pub Owned : History → AgentRun → Type 0
  Owned h run =
      (children : List AgentRun) × (env.list_owned (read_clock (env.now h) ∷ h) agent.namespace
          agent.uid
        ≡ some children)
      × Completed env (summarize_scheduled_runs env.codec children).items run

  -- Behind the pruning.
  pruned-Changes :
      (now : Time) (p : Policy) (h : History) (o : Outcome ObservedScheduledRuns)
      → Changes
          (writes h)
          (λ run.
            (retained : ObservedScheduledRuns) × (o ≡ done retained)
            × IsScheduled env agent now p retained run)
          (writes (carry_on (scheduled_step env agent now p) o h).1)
  pruned-Changes now p h (done retained) =
      Changes-more _ _ _ _ (λ run s. (retained, refl, s))
        (scheduled_step-Changes env agent now p retained h)
  pruned-Changes now p h (failed e) = inl refl
  pruned-Changes now p h stuck = inl refl

  with_policy-Replaces :
      (now : Time) (runs : ObservedScheduledRuns) (q : Parsed) (h : History)
      → Replaces
          (writes h)
          (Completed env runs.items)
          (λ run.
            (p : Policy) × (q ≡ policy p)
            × (retained : ObservedScheduledRuns) × ((prune_scheduled_history env p runs h).0
                ≡ done retained)
            × IsScheduled env agent now p retained run)
          (writes (with_policy env agent now runs q h).1)
  unfolding ◌>>=◌
  with_policy-Replaces now runs (invalid m) h = (
    writes h,
    no_more,
    inl (Quiet.at (Quiet-then _ _ (set_agent_status-Quiet env agent _ _) (Quiet-pure _)) h),
  )
  with_policy-Replaces now runs (policy p) h =
      let m = prune_scheduled_history env p runs in
      (
        writes (m h).1,
        prune_scheduled_history-Deletes env p runs h,
        Changes-more _ _ _ _ (λ run s. let (r, e, known) = s in (p, refl, r, e, known))
            (pruned-Changes now p (m h).1 (m h).0),
      )

  launched :
      (h : History) (children : List AgentRun) (ws' : List Write)
      → env.list_owned (read_clock (env.now h) ∷ h) agent.namespace agent.uid ≡ some children
      → Replaces
          (writes h)
          (Completed env (summarize_scheduled_runs env.codec children).items)
          (λ run.
            (p : Policy) × (parse env.cron agent.spec.schedule ≡ policy p)
            × (retained : ObservedScheduledRuns) × ((prune_scheduled_history env p
                  (summarize_scheduled_runs env.codec children)
                  (listed agent.namespace agent.uid ∷ read_clock (env.now h) ∷ h)).0
                ≡ done retained)
            × IsScheduled env agent (env.now h) p retained run)
          ws'
      → Replaces (writes h) (Owned h) (IsLaunched h) ws'
  launched h children ws' l (mid, d, c) = (
    mid,
    Deletes-more (λ run k. (children, l, k)) d,
    Changes-more _ _ _ _
        (λ run k.
          let (p, v, retained, e, s) = k in
          record {
            children = children;
            listing = l;
            parsed = p;
            valid = v;
            retained = retained;
            pruned = e;
            scheduled = s;
          })
        c,
  )

  behind_listing :
      (h : History) (l : Option (List AgentRun))
      → env.list_owned (read_clock (env.now h) ∷ h) agent.namespace agent.uid ≡ l
      → let h' = listed agent.namespace agent.uid ∷ read_clock (env.now h) ∷ h in
        let m =
          carry_on
            (λ children. pure (summarize_scheduled_runs env.codec children))
            (outcome_of l)
            h' in
        Replaces (writes h) (Owned h) (IsLaunched h) (
          writes
            (carry_on
              (λ runs. with_policy env agent (env.now h) runs (parse env.cron agent.spec.schedule))
              m.0
              m.1).1)
  unfolding pure writes
  behind_listing h none e = (writes h, no_more, inl refl)
  behind_listing h (some children) e = launched h children _ e (
      with_policy-Replaces (env.now h) (summarize_scheduled_runs env.codec children)
        (parse env.cron agent.spec.schedule)
        (listed agent.namespace agent.uid ∷ read_clock (env.now h) ∷ h))

  -- From every history of calls, a reconciliation of a Scheduled Agent first deletes only completed
  -- runs of the listing that it read, and then creates at most one AgentRun. If it creates one, the
  -- schedule is valid and not suspended, the status has the Agent's generation and a next slot, the
  -- run is the Agent's snapshot for the latest slot from there that is not after now, named after and
  -- stamped with the slot and the next number, the slot's starting deadline has not passed, no
  -- retained run has the slot, and under the policy Forbid no retained run is active.
  pub reconcile_scheduled-launches :
      (h : History)
      → Replaces (writes h) (Owned h) (IsLaunched h) (writes (reconcile_scheduled env agent h).1)
  unfolding reconcile_scheduled observe_scheduled_runs owned_runs ◌>>=◌ list_runs clock raise writes
      pure
  reconcile_scheduled-launches h = elim (Bool-cases (agent.uid == [])) [
    | inl e ↦ rw e (writes h, no_more, inl refl)
    | inr e ↦ rw e (
        behind_listing h (env.list_owned (read_clock (env.now h) ∷ h) agent.namespace agent.uid)
          refl)
  ]
