-- ===== src/AgentRuns/Transitions.antt =====
-- The changes of a run's status that keep it consistent, and the abstract life of a run.
use kontext.Prelude.{◌≡◌, refl, sym, ap, ◌∙◌, Bool, true, false, Option, none, some, is_some}
use kontext.Api.{Time, Message, AgentRunPhase, is_terminal, AgentRun, AgentRunStatus}
use kontext.Controller.Kube.{RunCall, History}
use kontext.AgentRuns.Cluster.{RunEnvironment}
use kontext.AgentRuns.Calls.{
  Ensures, Anything, Ensures-pure, Ensures-if, Ensures-bind, Ensures-now, Ensures-patch_status,
}
use kontext.AgentRuns.Status.{
  time_or_now, completion_for, with_conditions, for_agent_run_phase, transition_run,
}

-- A run has a completion time exactly if its phase is terminal.
abbrev pub IsConsistent : AgentRunStatus → Type 0
IsConsistent s = is_some s.completion_time ≡ is_terminal s.phase

-- A patch is answered by the run as it was read, with the status that was sent: no other client has
-- changed the run since.
pub record Faithful (env : RunEnvironment) : Type 0 where
  pub status :
      (h : History) (run : AgentRun) (next : AgentRunStatus) (after : AgentRun)
      → env.patch_run_status h run next ≡ some after
      → after.status ≡ next
  pub meta :
      (h : History) (run : AgentRun) (next : AgentRunStatus) (after : AgentRun)
      → env.patch_run_status h run next ≡ some after
      → after.meta ≡ run.meta
  pub spec :
      (h : History) (run : AgentRun) (next : AgentRunStatus) (after : AgentRun)
      → env.patch_run_status h run next ≡ some after
      → after.spec ≡ run.spec

-- What a patch may send: a consistent status, from a run that has not ended.
pub record Advances (base : AgentRun) (next : AgentRunStatus) : Type 0 where
  pub active : is_terminal base.status.phase ≡ false
  pub consistent : IsConsistent next

-- The abstract life of a run: active until it ends, with the phase and the time of its end.
pub data Life : Type 0 where
  active : Life
  ended : AgentRunPhase → Option Time → Life

abbrev life_of : Bool → AgentRunStatus → Life
life_of true s = ended s.phase s.completion_time
life_of false s = active

abbrev pub life : AgentRunStatus → Life
life s = life_of (is_terminal s.phase) s

-- An active run may stay active, and ends once, in a terminal phase at a known time.
pub data LifeStep : Life → Life → Type 0 where
  stays : LifeStep active active
  ends : (p : AgentRunPhase) (t : Time) → is_terminal p ≡ true → LifeStep active (ended p (some t))

life_of_step :
    (b : Bool) (p : AgentRunPhase) (s : AgentRunStatus) (o : Option Time)
    → is_terminal s.phase ≡ b
    → s.completion_time ≡ o
    → is_some o ≡ b
    → LifeStep active (life_of b s)
life_of_step true p s none e c h = absurd (cc h)
life_of_step true p s (some t) e c h = rw c (ends s.phase t e)
life_of_step false p s o e c h = stays

active_life : (s : AgentRunStatus) → is_terminal s.phase ≡ false → life s ≡ active
active_life s h = rw h refl

-- A patch that advances is a step of the abstract life.
pub Advances-LifeStep :
    (base : AgentRun) (next : AgentRunStatus)
    → Advances base next
    → LifeStep (life base.status) (life next)
Advances-LifeStep base next a = rw (active_life base.status a.active) (
    life_of_step (is_terminal next.phase) next.phase next next.completion_time refl refl
      a.consistent)

module _ (P : RunCall → Type 0) (env : RunEnvironment) where
  pub time_or_now-set : (o : Option Time) → Ensures P (time_or_now env o) (λ t. is_some t ≡ true)
  time_or_now-set (some t) = Ensures-pure P _ _ refl
  time_or_now-set none =
      Ensures-bind P Anything _ _ _ (Ensures-now P env) λ t _. Ensures-pure P _ _ refl

  completion_for-set :
      (phase : AgentRunPhase) (o : Option Time)
      → Ensures P (completion_for env phase o) (λ t. is_some t ≡ is_terminal phase)
  completion_for-set phase o =
      Ensures-if P _ (is_terminal phase) _ _ (λ b. rw b (time_or_now-set o))
        (λ b. Ensures-pure P _ _ (sym b))

  -- A transition from a run that has not ended advances it.
  pub transition_run-Ensures :
      (Q : AgentRun → Type 0) (run : AgentRun) (phase : AgentRunPhase) (message : Message)
      (update : AgentRunStatus → AgentRunStatus)
      → is_terminal run.status.phase ≡ false
      → ((s : AgentRunStatus) → (update s).phase ≡ s.phase)
      → ((next : AgentRunStatus) (r : Option AgentRun)
          → next.phase ≡ phase
          → Advances run next
          → P (RunCall.patch_run run next r))
      → ((h : History) (next : AgentRunStatus) (after : AgentRun)
          → next.phase ≡ phase
          → Advances run next
          → env.patch_run_status h run next ≡ some after
          → Q after)
      → Ensures P (transition_run env run phase message update) Q
  unfolding transition_run
  transition_run-Ensures Q run phase message update live keeps p q =
      let next : AgentRunStatus = update (record run.status { phase = phase; message = message }) in
      let same : next.phase ≡ phase =
        keeps (record run.status { phase = phase; message = message }) in
      Ensures-bind P _ Q _ _ (completion_for-set phase next.completion_time) λ completion c.
        let sent : AgentRunStatus =
          with_conditions env run (record next { completion_time = completion })
            (for_agent_run_phase phase) in
        let a : Advances run sent = record {
          active = live;
          consistent = c ∙ ap is_terminal (sym same);
        } in
        Ensures-patch_status P env Q run sent (λ r. p sent r same a)
          λ h after e. q h sent after same a e
