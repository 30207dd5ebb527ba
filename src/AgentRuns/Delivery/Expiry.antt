-- ===== src/AgentRuns/Delivery/Expiry.antt =====
-- Delivery is not tried for ever.
use kontext.Prelude.{
  ◌+◌, ◌≡◌, ◌≤◌, refl, ap, ◌∙◌, true, false, List, [], ◌∷◌, Option, none, some, arith,
}
use kontext.Api.{
  Time, Duration, before, is_zero, Message, AgentRunPhase, failed, budget_exceeded, is_terminal,
  AgentRun, AgentRunStatus,
}
use kontext.Controller.Kube.{
  Event, RunCall, History, Outcome, done, pure, ◌>>=◌, Requeue, no_requeue,
}
use kontext.AgentRuns.Cluster.{RunEnvironment, now, patch_status}
use kontext.AgentRuns.Calls.{calls_of}
use kontext.AgentRuns.Status.{
  allowed, parse_wallclock_budget, time_or_now, with_conditions, for_agent_run_phase,
  transition_run, as_is,
}
use kontext.AgentRuns.PodBacked.Progress.{bind_done, bind_pure}
use kontext.AgentRuns.Delivery.{
  default_delivery_timeout, delivery_deadline, fail_delivery_timeout, exceed_delivery_budget,
}
use kontext.AgentRuns.Delivery.Reconcile.{expire, reconcile_delivery}
use kontext.AgentRuns.Delivery.Conforms.{delivery_deadline-bound}

module _ (env : RunEnvironment) where
  time_or_now-quiet :
      (o : Option Time) (h : History)
      → (t : Time) × (h' : History) × (time_or_now env o h ≡ (done (some t), h'))
        × (calls_of h' ≡ calls_of h)
  unfolding now pure ◌>>=◌ calls_of
  time_or_now-quiet (some t) h = (t, h, refl, refl)
  time_or_now-quiet none h = (env.now h, Event.read_clock (env.now h) ∷ h, refl, refl)

  -- One patch, to a terminal phase.
  record EndsBy (run : AgentRun) (cs cs' : List RunCall) : Type 0 where
    next : AgentRunStatus
    reply : Option AgentRun
    calls : cs' ≡ RunCall.patch_run run next reply ∷ cs
    ended : is_terminal next.phase ≡ true

  abbrev ended_status : AgentRun → AgentRunPhase → Message → Option Time → AgentRunStatus
  ended_status run phase message completion =
      with_conditions env run
        (record run.status { phase = phase; message = message; completion_time = completion })
        (for_agent_run_phase phase)

  transition_run-at :
      (run : AgentRun) (phase : AgentRunPhase) (message : Message) (h h' : History) (t : Time)
      → is_terminal phase ≡ true
      → time_or_now env run.status.completion_time h ≡ (done (some t), h')
      → transition_run env run phase message as_is h
        ≡ patch_status env run (ended_status run phase message (some t)) h'
  unfolding transition_run
  transition_run-at run phase message h h' t terminal e =
      rw terminal (bind_done (time_or_now env run.status.completion_time) _ h h' (some t) e)

  transition_run-EndsBy :
      (run : AgentRun) (phase : AgentRunPhase) (message : Message) (q : Requeue) (h : History)
      → is_terminal phase ≡ true
      → EndsBy run
          (calls_of h)
          (calls_of ((transition_run env run phase message as_is >>= λ _. pure q) h).1)
  unfolding patch_status calls_of
  transition_run-EndsBy run phase message q h terminal =
      let (t, h1, e, quiet) = time_or_now-quiet run.status.completion_time h in
      let next = ended_status run phase message (some t) in
      let m = transition_run env run phase message as_is in
      record {
        next = next;
        reply = env.patch_run_status h1 run next;
        calls =
            ap calls_of (bind_pure m q h)
            ∙ ap (λ (x : Outcome AgentRun × History). calls_of x.1)
                (transition_run-at run phase message h h1 t terminal e)
            ∙ ap (λ cs. RunCall.patch_run run next (env.patch_run_status h1 run next) ∷ cs) quiet;
        ended = terminal;
      }

  expire-EndsBy :
      (run : AgentRun) (budget : Option Duration) (h : History)
      → EndsBy run (calls_of h) (calls_of (expire env run budget h).1)
  unfolding fail_delivery_timeout exceed_delivery_budget
  expire-EndsBy run none h = transition_run-EndsBy run failed _ no_requeue h refl
  expire-EndsBy run (some limit) h = transition_run-EndsBy run budget_exceeded _ no_requeue h refl

  not_before :
      (run : AgentRun) (limit : Option Duration) (t : Time)
      → is_zero run.creation_timestamp ≡ false
      → run.creation_timestamp + default_delivery_timeout ≤ t
      → before t (delivery_deadline run limit t).at ≡ false
  not_before run limit t z late = ground (arith, delivery_deadline-bound run limit t z)

  -- A delivered run that has not ended, has a valid budget and was created five minutes ago or longer, is
  -- ended by its next reconciliation, whatever the cluster answers: it asks for one patch, to a terminal
  -- phase, and for nothing else.
  pub reconcile_delivery-expires :
      (run : AgentRun) (limit : Option Duration)
      → is_terminal run.status.phase ≡ false
      → parse_wallclock_budget env run.spec.budget ≡ allowed limit
      → is_zero run.creation_timestamp ≡ false
      → run.creation_timestamp + default_delivery_timeout ≤ env.now []
      → (next : AgentRunStatus) × (reply : Option AgentRun) × (calls_of
            (reconcile_delivery env run []).1
          ≡ RunCall.patch_run run next reply ∷ [])
        × (is_terminal next.phase ≡ true)
  unfolding reconcile_delivery now ◌>>=◌ calls_of
  reconcile_delivery-expires run limit live budget z late =
      rw (live, budget)
        (rw (not_before run limit (env.now []) z late) (
          let e = expire-EndsBy run (delivery_deadline run limit (env.now [])).budget _ in
          (e.next, e.reply, e.calls, e.ended)))
