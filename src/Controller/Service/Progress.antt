-- ===== src/Controller/Service/Progress.antt =====
-- When reconcileService has to mint a standing run.
use kontext.Prelude.{
  ℕ, ◌+◌, ◌≡◌, ◌≢◌, refl, inl, inr, false, List, [], ◌∷◌, Option, none, some, Text, ◌==◌, nat_eq,
  list_eq, Bool-cases, eq_of_beq, arith, pos, ltb_ℤ, ◌-ℤ◌, max_int32,
}
use kontext.Api.{Time, Duration, sub_time, Agent, AgentRun}
use kontext.RunFactory.Resolve.{new_for_agent}
use kontext.Controller.Kube.{
  Environment, create, read_clock, listed, History, pure, ◌>>=◌, clock, create_run, list_runs,
}
use kontext.Controller.Kube.Writes.{creates, writes, Quiet}
use kontext.Controller.Service.{
  name_of_next, create_minted, mint, wait_or_mint, after_terminal, recast, with_goal,
  reconcile_service,
}
use kontext.Controller.Service.Observe.{
  ObservedServiceRuns, owned_runs, observe, observe_service_runs,
}
use kontext.Controller.Service.Backoff.{backoff_delay}
use kontext.Controller.Service.Safety.{after_create-Quiet, Next, Due}

module _ (env : Environment) (agent : Agent) where
  create_minted-creates :
      (current : Option AgentRun) (name : Text) (n : ℕ) (o : Option AgentRun) (run : AgentRun)
      (h : History)
      → o ≡ some run
      → writes (create_minted env agent current name n o h).1 ≡ creates run ∷ writes h
  unfolding create_run ◌>>=◌ writes
  create_minted-creates current name n none run h e = absurd (cc e)
  create_minted-creates current name n (some r) run h e =
      let same : r ≡ run = ground arith in
      rw (← same) (
        Quiet.at (after_create-Quiet env agent current r name n (env.create_run h r))
          (create r (env.create_run h r) ∷ h))

  mint-creates :
      (runs : ObservedServiceRuns) (run : AgentRun) (h : History)
      → Next env agent runs run
      → writes (mint env agent runs h).1 ≡ creates run ∷ writes h
  unfolding mint
  mint-creates runs run h next = elim (Bool-cases (runs.max_suffix == max_int32)) [
    | inl e ↦ absurd (next.room (eq_of_beq runs.max_suffix max_int32 e))
    | inr e ↦ rw e (
        create_minted-creates runs.current (name_of_next agent (runs.max_suffix + 1))
          (runs.max_suffix + 1)
          (new_for_agent env.set_controller_reference agent
            (name_of_next agent (runs.max_suffix + 1)) agent.spec.goal)
          run h next.built)
  ]

  wait_or_mint-creates :
      (runs : ObservedServiceRuns) (run : AgentRun) (delay since : Duration) (h : History)
      → ltb_ℤ since delay ≡ false
      → Next env agent runs run
      → writes (wait_or_mint env agent runs delay since h).1 ≡ creates run ∷ writes h
  wait_or_mint-creates runs run delay since h e next = rw e (mint-creates runs run h next)

  after_terminal-creates :
      (runs : ObservedServiceRuns) (run : AgentRun) (o : Option Time) (h : History)
      → ((t : Time)
          → o ≡ some t
          → ltb_ℤ
              (sub_time (env.now h) t)
              (backoff_delay agent.spec.backoff (pos runs.max_suffix -ℤ pos 1))
            ≡ false)
      → Next env agent runs run
      → writes (after_terminal env agent runs o h).1 ≡ creates run ∷ writes h
  unfolding clock ◌>>=◌ writes
  after_terminal-creates runs run none h late next = mint-creates runs run h next
  after_terminal-creates runs run (some t) h late next =
      wait_or_mint-creates runs run
        (backoff_delay agent.spec.backoff (pos runs.max_suffix -ℤ pos 1)) (sub_time (env.now h) t)
        (read_clock (env.now h) ∷ h) (late t refl) next

  recast-creates :
      (runs : ObservedServiceRuns) (run : AgentRun) (o : Option AgentRun) (h : History)
      → Due env agent runs (env.now h) o
      → Next env agent runs run
      → writes (recast env agent runs o h).1 ≡ creates run ∷ writes h
  unfolding recast
  recast-creates runs run none h due next = mint-creates runs run h next
  recast-creates runs run (some current) h (ended, late) next =
      rw ended (after_terminal-creates runs run current.status.completion_time h late next)

  with_goal-creates :
      (runs : ObservedServiceRuns) (run : AgentRun) (h : History)
      → agent.spec.goal ≢ []
      → Due env agent runs (env.now h) runs.current
      → Next env agent runs run
      → writes (with_goal env agent runs h).1 ≡ creates run ∷ writes h
  with_goal-creates runs run h goal due next = elim (Bool-cases (agent.spec.goal == [])) [
    | inl e ↦ absurd (goal (eq_of_beq agent.spec.goal [] e))
    | inr e ↦ rw e (recast-creates runs run runs.current h due next)
  ]

  -- A reconciliation of a Service Agent with a UID and a goal, whose owned runs are listed, creates
  -- the next standing run if the listing has no standing run, or its latest one is terminal and has
  -- no completion time or one that the backoff has passed, unless the numbers up to 2^31 - 1 are used
  -- up or the run cannot be built.
  pub reconcile_service-creates :
      (h : History) (runs : List AgentRun) (run : AgentRun)
      → agent.uid ≢ []
      → agent.spec.goal ≢ []
      → env.list_owned h agent.namespace agent.uid ≡ some runs
      → Due env agent
          (observe agent.name runs)
          (env.now (listed agent.namespace agent.uid ∷ h))
          (observe agent.name runs).current
      → Next env agent (observe agent.name runs) run
      → writes (reconcile_service env agent h).1 ≡ creates run ∷ writes h
  unfolding reconcile_service observe_service_runs owned_runs ◌>>=◌ list_runs writes pure
  reconcile_service-creates h runs run uid goal l due next = elim (Bool-cases (agent.uid == [])) [
    | inl e ↦ absurd (uid (eq_of_beq agent.uid [] e))
    | inr e ↦
        rw (e, l)
          (with_goal-creates (observe agent.name runs) run (listed agent.namespace agent.uid ∷ h)
            goal due next)
  ]
