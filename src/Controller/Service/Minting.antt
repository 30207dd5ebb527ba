-- ===== src/Controller/Service/Minting.antt =====
-- When reconcileService mints a standing run, and which.
use kontext.Prelude.{
  ℕ, ◌+◌, ◌≤◌, ◌≡◌, ◌≢◌, refl, inl, inr, ◌⊎◌, true, false, List, [], ◌∷◌, Option, none, some, arith,
  ◌==◌, nat_eq, list_eq, Bool-cases, pos, ltb_ℤ, ◌-ℤ◌, max_int32,
}
use kontext.Api.{Time, sub_time, Agent, AgentRun, is_terminal}
use kontext.RunFactory.Resolve.{new_spec}
use kontext.RunFactory.Resolve.Snapshot.{new_for_agent-built}
use kontext.RunFactory.Resolve.Names.{standing_name}
use kontext.Controller.Kube.{
  Environment, listed, History, raise, ◌>>=◌, list_runs, outcome_of, pure, carry_on,
}
use kontext.Controller.Kube.Writes.{Changes, Changes-more, writes}
use kontext.Controller.Service.{name_of_next, reconcile_service, with_goal}
use kontext.Controller.Service.Observe.{
  ObservedServiceRuns, owned_runs, observe, observe_service_runs, standing_suffix,
}
use kontext.Controller.Service.Backoff.{backoff_delay}
use kontext.Controller.Service.Standing.{Elem, Holds, observe-IsObserved, standing_suffix_bounds}
use kontext.Controller.Service.Safety.{Next, Due, with_goal-Changes, goal_set}

-- What is known of a standing run that is minted: it has the first number that no standing run of
-- the listing reaches, the listing's latest standing run has ended, and its backoff is over.
pub record IsMinted (env : Environment) (agent : Agent) (h : History) (run : AgentRun)
    : Type 0 where
  pub owner : agent.uid ≢ []
  pub goal : agent.spec.goal ≢ []
  pub runs : List AgentRun
  pub listing : env.list_owned h agent.namespace agent.uid ≡ some runs
  pub latest : ℕ
  pub bound : latest + 1 ≤ max_int32
  pub unreached :
      (r : AgentRun) (n : ℕ) → Elem r runs → standing_suffix agent.name r ≡ some n → n ≤ latest
  pub name : run.name ≡ standing_name agent.name (latest + 1)
  pub namespace : run.namespace ≡ agent.namespace
  pub spec : run.spec ≡ new_spec agent agent.spec.goal
  pub none_live :
      (latest ≡ 0)
      ⊎ ((r : AgentRun) × Elem r runs
          × (standing_suffix agent.name r ≡ some latest)
          × (is_terminal r.status.phase ≡ true)
          × ((t : Time)
              → r.status.completion_time ≡ some t
              → ltb_ℤ
                  (sub_time (env.now (listed agent.namespace agent.uid ∷ h)) t)
                  (backoff_delay agent.spec.backoff (pos latest -ℤ pos 1))
                ≡ false))

abbrev Latest : Environment → Agent → Time → List AgentRun → ℕ → Type 0
Latest env agent now runs n =
    (n ≡ 0)
    ⊎ ((r : AgentRun) × Elem r runs
        × (standing_suffix agent.name r ≡ some n)
        × (is_terminal r.status.phase ≡ true)
        × ((t : Time)
            → r.status.completion_time ≡ some t
            → ltb_ℤ (sub_time now t) (backoff_delay agent.spec.backoff (pos n -ℤ pos 1)) ≡ false))

module _ (env : Environment) (agent : Agent) where
  max_bound :
      (runs : List AgentRun) (c : Option AgentRun) (n : ℕ)
      → Holds agent.name (λ r. Elem r runs) c n
      → n ≢ max_int32
      → n + 1 ≤ max_int32
  max_bound runs none n e ne = omega (arith, e)
  max_bound runs (some r) n (p, e) ne =
      let (lo, hi) = standing_suffix_bounds agent.name r n e in ground (arith, ne)

  ended :
      (runs : List AgentRun) (o : ObservedServiceRuns) (now : Time) (c : Option AgentRun)
      → Holds agent.name (λ r. Elem r runs) c o.max_suffix
      → Due env agent o now c
      → Latest env agent now runs o.max_suffix
  ended runs o now none e d = inl e
  ended runs o now (some r) (p, e) (t, b) = inr (r, p, e, t, b)

  minted :
      (h : History) (runs : List AgentRun) (run : AgentRun)
      → agent.uid ≢ []
      → env.list_owned h agent.namespace agent.uid ≡ some runs
      → Next env agent (observe agent.name runs) run
        × (Due env agent
              (observe agent.name runs)
              (env.now (listed agent.namespace agent.uid ∷ h))
              (observe agent.name runs).current
            × (agent.spec.goal ≢ []))
      → IsMinted env agent h run
  minted h runs run uid l (next, (due, goal)) =
      let o = observe agent.name runs in
      let seen = observe-IsObserved agent.name runs in
      let (name, namespace, spec) =
        new_for_agent-built env.set_controller_reference agent
          (name_of_next agent (o.max_suffix + 1)) agent.spec.goal run next.built in
      record {
        owner = uid;
        goal = goal;
        runs = runs;
        listing = l;
        latest = o.max_suffix;
        bound = max_bound runs o.current o.max_suffix seen.current next.room;
        unreached = λ r n m e. ground (arith, seen.covered r n m e, seen.order);
        name = name;
        namespace = namespace;
        spec = spec;
        none_live = ended runs o _ o.current seen.current due;
      }

  behind_listing :
      (h : History) (l : Option (List AgentRun))
      → agent.uid ≢ []
      → env.list_owned h agent.namespace agent.uid ≡ l
      → Changes (writes h) (IsMinted env agent h) (
          writes
            (carry_on
              (with_goal env agent)
              (carry_on
                (λ runs. pure (observe agent.name runs))
                (outcome_of l)
                (listed agent.namespace agent.uid ∷ h)).0
              (carry_on
                (λ runs. pure (observe agent.name runs))
                (outcome_of l)
                (listed agent.namespace agent.uid ∷ h)).1).1)
  unfolding pure writes
  behind_listing h none uid e = inl refl
  behind_listing h (some runs) uid e =
      Changes-more _ _ _ _ (λ run p. minted h runs run uid e p)
        (with_goal-Changes env agent (observe agent.name runs)
          (listed agent.namespace agent.uid ∷ h))

  -- From every history of calls, a reconciliation of a Service Agent deletes nothing and creates at
  -- most one AgentRun. If it creates one, the Agent has a UID and a goal, the owned runs were
  -- listed, and the run has the Agent's snapshot as its spec and is named "<agent>-<n + 1>" for the
  -- largest number n of the listing's standing runs, 0 without any; and if n is not 0, a standing
  -- run numbered n is terminal and, if it has a completion time, its backoff has passed.
  pub reconcile_service-mints :
      (h : History)
      → Changes (writes h) (IsMinted env agent h) (writes (reconcile_service env agent h).1)
  unfolding reconcile_service observe_service_runs owned_runs ◌>>=◌ list_runs raise writes pure
  reconcile_service-mints h = elim (Bool-cases (agent.uid == [])) [
    | inl e ↦ rw e (inl refl)
    | inr e ↦ rw e (
        behind_listing h (env.list_owned h agent.namespace agent.uid) (goal_set env agent.uid e)
          refl)
  ]
