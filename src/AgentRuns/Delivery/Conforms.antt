-- ===== src/AgentRuns/Delivery/Conforms.antt =====
-- What the reconciliation of a delivered run may ask for.
use kontext.Prelude.{
  ◌+◌, ◌≡◌, ◌≢◌, ◌≤◌, refl, sym, ◌∙◌, false, not, Option, none, some, Text, nat_eq, list_eq, arith,
}
use kontext.Api.{
  Time, Duration, before, is_zero, Message, AgentRunPhase, failed, succeeded, is_terminal,
  ObjectMeta, AgentRun, AgentRunStatus,
}
use kontext.PodStatus.{observe_result_envelope}
use kontext.PodStatus.Terminal.{envelope-succeeded, envelope-ends}
use kontext.Result.{Envelope, ResultOutcome}
use kontext.Controller.Kube.{HttpRequest, RunCall, Action, pure, ◌>>=◌, Requeue}
use kontext.AgentRuns.Cluster.{RunEnvironment}
use kontext.AgentRuns.Calls.{
  Anything, Ensures, Ensures-bind, Ensures-if, Ensures-now, Ensures-patch_status, Ensures-pure,
}
use kontext.AgentRuns.Status.{as_is, transition_run}
use kontext.AgentRuns.Transitions.{Advances, time_or_now-set, transition_run-Ensures}
use kontext.AgentRuns.Delivery.{
  Deadline, default_delivery_timeout, delivery_backoff, delivery_deadline, earliest,
  exceed_delivery_budget, fail_delivery_timeout, set_delivery_waiting,
}
use kontext.AgentRuns.Delivery.Target.{Resolution, Target, misconfigured, resolved, unavailable}
use kontext.AgentRuns.Delivery.Send.{http_request}
use kontext.AgentRuns.Delivery.Reconcile.{accept, before_deadline, expire, fail, wait, with_target}
use kontext.AgentRuns.Delivery.Verified.{IsTarget, IsVerified}

-- The deadline is the delivery timeout behind the creation, or earlier.
pub delivery_deadline-bound :
    (run : AgentRun) (limit : Option Duration) (t : Time)
    → is_zero run.creation_timestamp ≡ false
    → (delivery_deadline run limit t).at ≤ run.creation_timestamp + default_delivery_timeout
unfolding delivery_deadline
delivery_deadline-bound run limit t h = rw h (earliest-bound limit run.status.start_time)
  where
    earliest-bound :
        (limit : Option Duration) (start : Option Time)
        → (earliest (run.creation_timestamp + default_delivery_timeout) limit start).at
          ≤ run.creation_timestamp + default_delivery_timeout
    earliest-bound none start = omega arith
    earliest-bound (some d) none = omega arith
    earliest-bound (some d) (some start) = ground arith

module _ (env : RunEnvironment) where
  -- A success that is reported: of an envelope that a target signed in answer to this run, whose outcome
  -- is no failure, with its result.
  pub record IsAccepted (meta : ObjectMeta) (base : AgentRun) (next : AgentRunStatus) : Type 0 where
    pub target : Target
    pub envelope : Envelope
    pub verified : IsVerified env base.uid target envelope
    pub legitimate : IsTarget env meta target
    pub outcome : envelope.outcome ≢ ResultOutcome.failed
    pub result : next.result ≡ (observe_result_envelope env.json envelope).result

  module _ (run : AgentRun) where
    -- A request that may be sent: it delivers this run to a target of its own, with a deadline five
    -- minutes behind the creation of the run at most.
    pub record MayPost (request : HttpRequest) : Type 0 where
      pub base : AgentRun
      pub target : Target
      pub challenge : Text
      pub deadline : Time
      pub same_meta : base.meta ≡ run.meta
      pub same_spec : base.spec ≡ run.spec
      pub legitimate : IsTarget env run.meta target
      pub sent : request ≡ http_request env base target.pod challenge deadline
      pub due :
          is_zero run.creation_timestamp ≡ false
          → deadline ≤ run.creation_timestamp + default_delivery_timeout

    abbrev pub IsDelivery : RunCall → Type 0
    IsDelivery (RunCall.patch_run base next r) =
        Advances base next × (next.phase ≡ succeeded → IsAccepted run.meta base next)
    IsDelivery (RunCall.post request r) = MayPost request
    IsDelivery _ = ⊥

    abbrev pub Delivers : {A : Type 0} → Action A → Type 0
    Delivers m = Ensures IsDelivery m Anything

    pub Delivers-bind :
        {A B : Type 0} (m : Action A) (f : A → Action B)
        → Delivers m
        → ((a : A) → Delivers (f a))
        → Delivers (m >>= f)
    Delivers-bind m f em ef = Ensures-bind IsDelivery Anything Anything m f em λ a _. ef a

    pub Delivers-pure : {A : Type 0} (a : A) → Delivers (pure a)
    Delivers-pure a = Ensures-pure IsDelivery Anything a tt

    pub transition-Delivers :
        (base : AgentRun) (phase : AgentRunPhase) (message : Message)
        → is_terminal base.status.phase ≡ false
        → phase ≢ succeeded
        → Delivers (transition_run env base phase message as_is)
    transition-Delivers base phase message live other =
        transition_run-Ensures IsDelivery env Anything base phase message as_is live (λ s. refl)
          (λ next r e a. (a, λ s. absurd (other (sym e ∙ s)))) (λ h next after e a x. tt)

    pub expire-Delivers :
        (base : AgentRun) (limit : Option Duration)
        → is_terminal base.status.phase ≡ false
        → Delivers (expire env base limit)
    unfolding fail_delivery_timeout exceed_delivery_budget
    expire-Delivers base none live =
        Delivers-bind _ _ (transition-Delivers base failed _ live (λ e. cc e)) λ _. Delivers-pure _
    expire-Delivers base (some limit) live =
        Delivers-bind _ _ (transition-Delivers base _ _ live (λ e. cc e)) λ _. Delivers-pure _

    pub fail-Delivers :
        (base : AgentRun) (message : Message)
        → is_terminal base.status.phase ≡ false
        → Delivers (fail env base message)
    fail-Delivers base message live =
        Delivers-bind _ _ (transition-Delivers base failed message live (λ e. cc e))
          λ _. Delivers-pure _

    pub wait-Delivers :
        (base : AgentRun) (reason : Text) (message : Message)
        → is_terminal base.status.phase ≡ false
        → Delivers (wait env base reason message)
    unfolding set_delivery_waiting delivery_backoff
    wait-Delivers base reason message live =
        Delivers-bind _ _
          (Ensures-patch_status IsDelivery env Anything base _
            (λ r. (record { active = live; consistent = refl }, λ e. absurd (cc e)))
            (λ h after e. tt))
          λ after.
            Delivers-bind _ _ (Delivers-bind _ _ (Ensures-now IsDelivery env) λ t. Delivers-pure _)
              λ d. Delivers-pure _

    pub before_deadline-Delivers :
        (base : AgentRun) (limit : Option Duration) (go : Deadline → Action Requeue)
        → is_terminal base.status.phase ≡ false
        → ((t : Time) → Delivers (go (delivery_deadline base limit t)))
        → Delivers (before_deadline env base limit go)
    before_deadline-Delivers base limit go live more =
        Delivers-bind _ _ (Ensures-now IsDelivery env) λ t.
          Ensures-if IsDelivery _ (not (before t (delivery_deadline base limit t).at)) _ _
            (λ b. expire-Delivers base _ live) (λ b. more t)

    pub with_target-Delivers :
        (base : AgentRun) (go : Target → Action Requeue) (r : Resolution)
        → is_terminal base.status.phase ≡ false
        → ((target : Target) → r ≡ resolved target → Delivers (go target))
        → Delivers (with_target env base go r)
    with_target-Delivers base go (misconfigured message) live more = fail-Delivers base message live
    with_target-Delivers base go (unavailable reason message) live more =
        wait-Delivers base reason message live
    with_target-Delivers base go (resolved target) live more = more target refl

    pub accept-Delivers :
        (base : AgentRun) (target : Target) (sender : Target) (e : Envelope)
        → is_terminal base.status.phase ≡ false
        → IsVerified env base.uid sender e
        → IsTarget env run.meta sender
        → Delivers (accept env base target e)
    unfolding accept
    accept-Delivers base target sender e live verified ready =
        let o = observe_result_envelope env.json e in
        Ensures-bind IsDelivery _ _ _ _ (time_or_now-set IsDelivery env base.status.completion_time)
          λ completion c.
            Delivers-bind _ _
              (Ensures-patch_status IsDelivery env Anything base _
                (λ r. (
                  record { active = live; consistent = c ∙ sym (envelope-ends env.json e) },
                  λ s. record {
                    target = sender;
                    envelope = e;
                    verified = verified;
                    legitimate = ready;
                    outcome = (envelope-succeeded env.json e).0 s;
                    result = refl;
                  },
                ))
                (λ h after x. tt))
              λ after. Delivers-pure _
