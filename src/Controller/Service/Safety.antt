-- ===== src/Controller/Service/Safety.antt =====
-- What each part of reconcileService may change.
use kontext.Prelude.{
  ℕ, ◌+◌, ◌≡◌, ◌≢◌, refl, inl, inr, Bool, true, false, [], ◌∷◌, Option, none, some, Text, arith,
  ◌==◌, nat_eq, list_eq, beq_refl, Bool-cases, pos, ltb_ℤ, ◌-ℤ◌, max_int32,
}
use kontext.Api.{Time, Duration, sub_time, Agent, AgentRun, is_terminal}
use kontext.RunFactory.Resolve.{new_for_agent}
use kontext.Controller.Kube.{
  Environment, create, read_clock, CreateReply, created, already_exists, create_failed,
  suffix_exhausted, History, raise, ◌>>=◌, clock, create_run,
}
use kontext.Controller.Kube.Writes.{
  Changes, Changes-more, writes, Quiet, Quiet-then, quiet_rules, Quiet-pure, Quiet-raise,
}
use kontext.Controller.Status.{set_agent_status-Quiet}
use kontext.Controller.Service.{
  GetReply, found, not_found, get_failed, verify_existing_owned_run,
  handle_service_run_already_exists, after_create, create_minted, name_of_next, mint, wait_or_mint,
  after_terminal, recast, with_goal, judge, collide, Existing,
}
use kontext.Controller.Service.Observe.{ObservedServiceRuns}
use kontext.Controller.Service.Backoff.{backoff_delay}

module _ (env : Environment) where
  judge-Quiet :
      (agent : Agent) (accept : AgentRun → Bool) (r : GetReply AgentRun)
      → Quiet (judge env agent accept r)
  judge-Quiet agent accept not_found = search quiet_rules
  judge-Quiet agent accept get_failed = search quiet_rules
  judge-Quiet agent accept (found run) = search quiet_rules

  pub verify-Quiet :
      (agent : Agent) (name : Text) (accept : AgentRun → Bool)
      → Quiet (verify_existing_owned_run env agent name accept)
  unfolding verify_existing_owned_run
  verify-Quiet agent name accept = search (quiet_rules, judge-Quiet)

  collide-Quiet : (e : Existing) → Quiet (collide env e)
  collide-Quiet none = search quiet_rules
  collide-Quiet (some (run, true)) = search quiet_rules
  collide-Quiet (some (run, false)) = search quiet_rules

  pub after_create-Quiet :
      (agent : Agent) (current : Option AgentRun) (run : AgentRun) (name : Text) (n : ℕ)
      (r : CreateReply)
      → Quiet (after_create env agent current run name n r)
  unfolding handle_service_run_already_exists
  after_create-Quiet agent current run name n create_failed = search quiet_rules
  after_create-Quiet agent current run name n already_exists =
      search (quiet_rules, verify-Quiet, collide-Quiet)
  after_create-Quiet agent current run name n created = search (quiet_rules, set_agent_status-Quiet)

  -- The next run of an Agent behind the runs that were observed.
  pub record Next (agent : Agent) (runs : ObservedServiceRuns) (run : AgentRun) : Type 0 where
    pub room : runs.max_suffix ≢ max_int32
    pub built :
        new_for_agent env.set_controller_reference agent
          (name_of_next agent (runs.max_suffix + 1))
          agent.spec.goal
        ≡ some run

  create_minted-Changes :
      (agent : Agent) (current : Option AgentRun) (name : Text) (n : ℕ) (o : Option AgentRun)
      (h : History)
      → Changes
          (writes h)
          (λ run. o ≡ some run)
          (writes (create_minted env agent current name n o h).1)
  unfolding create_run ◌>>=◌ writes raise
  create_minted-Changes agent current name n none h = inl refl
  create_minted-Changes agent current name n (some run) h = inr (
    run,
    Quiet.at (after_create-Quiet agent current run name n (env.create_run h run))
        (create run (env.create_run h run) ∷ h),
    refl,
  )

  mint-Changes :
      (agent : Agent) (runs : ObservedServiceRuns) (h : History)
      → Changes (writes h) (Next agent runs) (writes (mint env agent runs h).1)
  unfolding mint
  mint-Changes agent runs h = elim (Bool-cases (runs.max_suffix == max_int32)) [
    | inl e ↦ rw e (inl (Quiet.at (Quiet-raise suffix_exhausted) h))
    | inr e ↦ rw e (
        Changes-more _ _ _ _ (λ run b. record { room = ground arith; built = b })
          (create_minted-Changes agent runs.current (name_of_next agent (runs.max_suffix + 1))
            (runs.max_suffix + 1)
            (new_for_agent env.set_controller_reference agent
              (name_of_next agent (runs.max_suffix + 1)) agent.spec.goal)
            h))
  ]

  -- Nothing keeps the next run back: there is no latest run, or it has ended and its backoff is over.
  abbrev pub Due : Agent → ObservedServiceRuns → Time → Option AgentRun → Type 0
  Due agent runs now none = Unit {0}
  Due agent runs now (some current) =
      (is_terminal current.status.phase ≡ true)
      × ((completed : Time)
          → current.status.completion_time ≡ some completed
          → ltb_ℤ (sub_time now completed)
              (backoff_delay agent.spec.backoff (pos runs.max_suffix -ℤ pos 1))
            ≡ false)

  wait_or_mint-Changes :
      (agent : Agent) (runs : ObservedServiceRuns) (delay since : Duration) (h : History)
      → Changes
          (writes h)
          (λ run. Next agent runs run × (ltb_ℤ since delay ≡ false))
          (writes (wait_or_mint env agent runs delay since h).1)
  wait_or_mint-Changes agent runs delay since h = elim (Bool-cases (ltb_ℤ since delay)) [
    | inl e ↦
        rw e
          (inl (Quiet.at (Quiet-then _ _ (set_agent_status-Quiet env agent _ _) (Quiet-pure _)) h))
    | inr e ↦ rw e (Changes-more _ _ _ _ (λ run n. (n, refl)) (mint-Changes agent runs h))
  ]

  same_time : (t u : Time) → some t ≡ some u → t ≡ u
  same_time t u e = ground arith

  after_terminal-Changes :
      (agent : Agent) (runs : ObservedServiceRuns) (o : Option Time) (h : History)
      → Changes
          (writes h)
          (λ run.
            Next agent runs run
            × ((completed : Time)
                → o ≡ some completed
                → ltb_ℤ
                    (sub_time (env.now h) completed)
                    (backoff_delay agent.spec.backoff (pos runs.max_suffix -ℤ pos 1))
                  ≡ false))
          (writes (after_terminal env agent runs o h).1)
  unfolding clock ◌>>=◌ writes
  after_terminal-Changes agent runs none h =
      Changes-more _ _ _ _ (λ run n. (n, λ t e. absurd (cc e))) (mint-Changes agent runs h)
  after_terminal-Changes agent runs (some completed) h =
      Changes-more _ _ _ _ (λ run p. (p.0, λ t e. rw (← same_time completed t e) p.1))
        (wait_or_mint-Changes agent runs
          (backoff_delay agent.spec.backoff (pos runs.max_suffix -ℤ pos 1))
          (sub_time (env.now h) completed) (read_clock (env.now h) ∷ h))

  recast-Changes :
      (agent : Agent) (runs : ObservedServiceRuns) (o : Option AgentRun) (h : History)
      → Changes
          (writes h)
          (λ run. Next agent runs run × Due agent runs (env.now h) o)
          (writes (recast env agent runs o h).1)
  unfolding recast
  recast-Changes agent runs none h =
      Changes-more _ _ _ _ (λ run n. (n, tt)) (mint-Changes agent runs h)
  recast-Changes agent runs (some current) h =
      elim (Bool-cases (is_terminal current.status.phase)) [
        | inl e ↦ rw e (
            Changes-more _ _ _ _ (λ run p. (p.0, (refl, p.1)))
              (after_terminal-Changes agent runs current.status.completion_time h))
        | inr e ↦ rw e (
            inl (Quiet.at (Quiet-then _ _ (set_agent_status-Quiet env agent _ _) (Quiet-pure _)) h))
      ]

  pub goal_set : (goal : Text) → (goal == []) ≡ false → goal ≢ []
  goal_set goal e q = cc (e, q, beq_refl {A = Text} [])

  pub with_goal-Changes :
      (agent : Agent) (runs : ObservedServiceRuns) (h : History)
      → Changes
          (writes h)
          (λ run.
            Next agent runs run
            × (Due agent runs (env.now h) runs.current × (agent.spec.goal ≢ [])))
          (writes (with_goal env agent runs h).1)
  with_goal-Changes agent runs h = elim (Bool-cases (agent.spec.goal == [])) [
    | inl e ↦
        rw e
          (inl (Quiet.at (Quiet-then _ _ (set_agent_status-Quiet env agent _ _) (Quiet-pure _)) h))
    | inr e ↦ rw e (
        Changes-more _ _ _ _ (λ run p. (p.0, (p.1, goal_set agent.spec.goal e)))
          (recast-Changes agent runs runs.current h))
  ]
