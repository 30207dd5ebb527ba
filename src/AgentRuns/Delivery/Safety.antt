-- ===== src/AgentRuns/Delivery/Safety.antt =====
-- The whole reconciliation of a delivered run asks only for what is allowed.
use kontext.Prelude.{
  ◌+◌, ◌≤◌, ◌≡◌, refl, sym, ap, ◌∙◌, true, false, ◌||◌, not, [], Option, Text, ◌==◌, nat_eq,
  list_eq, eq_of_beq, arith,
}
use mathlib.Core.Path.{subst}
use kontext.Api.{Duration, Time, is_zero, is_terminal, ObjectMeta, AgentRun, AgentRunStatus}
use kontext.Controller.Kube.{GetReply, found, not_found, get_failed}
use kontext.AgentRuns.Cluster.{RunEnvironment}
use kontext.AgentRuns.Calls.{
  Calls, Ensures, Ensures-bind, Ensures-get_live_run, Ensures-if, Ensures-patch_status,
  Ensures-raise, Ensures-weaken,
}
use kontext.AgentRuns.Status.{Wallclock, allowed, bad_limit}
use kontext.AgentRuns.Transitions.{Faithful, time_or_now-set}
use kontext.AgentRuns.Delivery.{default_delivery_timeout, delivery_deadline, set_delivery_running}
use kontext.AgentRuns.Delivery.Target.{Target}
use kontext.AgentRuns.Delivery.Send.{Delivery, delivered, refused, retryable}
use kontext.AgentRuns.Delivery.Reconcile.{
  unreachable, resolve_and_deliver, conclude, deliver_before, deliver_to, reconcile_delivery,
  with_budget, with_latest,
}
use kontext.AgentRuns.Delivery.Verified.{
  Genuine, IsConfirmed, IsTarget, confirm-IsConfirmed, deliver-Genuine, resolve-IsReady,
}
use kontext.AgentRuns.Delivery.Conforms.{
  Delivers, IsDelivery, Delivers-bind, Delivers-pure, accept-Delivers, before_deadline-Delivers,
  delivery_deadline-bound, fail-Delivers, wait-Delivers, with_target-Delivers,
}

-- The run with the metadata and the spec that it was read with, and running.
record IsUnderway (run after : AgentRun) : Type 0 where
  meta : after.meta ≡ run.meta
  spec : after.spec ≡ run.spec
  live : is_terminal after.status.phase ≡ false

module _ (env : RunEnvironment) (run : AgentRun) where
  set_delivery_running-Underway :
      (pod_name : Text)
      → Faithful env
      → is_terminal run.status.phase ≡ false
      → Ensures (IsDelivery env run) (set_delivery_running env run pod_name) (IsUnderway run)
  unfolding set_delivery_running
  set_delivery_running-Underway pod_name faithful live =
      Ensures-bind (IsDelivery env run) _ _ _ _
        (time_or_now-set (IsDelivery env run) env run.status.start_time)
        λ start s.
          Ensures-patch_status (IsDelivery env run) env _ run _
            (λ r. (record { active = live; consistent = refl }, λ e. absurd (cc e)))
            (λ h after e. record {
              meta = faithful.meta h run _ after e;
              spec = faithful.spec h run _ after e;
              live =
                  ap (λ (x : AgentRunStatus). is_terminal x.phase)
                    (faithful.status h run _ after e);
            })

  conclude-Delivers :
      (latest : AgentRun) (limit : Option Duration) (outcome : Delivery) (sender target : Target)
      → is_terminal latest.status.phase ≡ false
      → Genuine env latest.uid sender outcome
      → IsTarget env run.meta sender
      → Delivers env run (conclude env latest limit outcome target)
  unfolding conclude
  conclude-Delivers latest limit (refused message) sender target live genuine ready =
      fail-Delivers env run latest message live
  conclude-Delivers latest limit (delivered e) sender target live genuine ready =
      accept-Delivers env run latest target sender e live genuine ready
  conclude-Delivers latest limit (retryable message) sender target live genuine ready =
      before_deadline-Delivers env run latest limit (λ d. unreachable env latest message) live
        λ t. wait-Delivers env run latest _ _ live

  with_latest-Delivers :
      (after : AgentRun) (limit : Option Duration) (sender : Target) (outcome : Delivery)
      (r : GetReply AgentRun)
      → Genuine env after.uid sender outcome
      → IsTarget env run.meta sender
      → Delivers env run (with_latest env after limit sender outcome r)
  with_latest-Delivers after limit sender outcome get_failed genuine ready = Ensures-raise _ _ _
  with_latest-Delivers after limit sender outcome not_found genuine ready = Delivers-pure env run _
  with_latest-Delivers after limit sender outcome (found latest) genuine ready =
      Ensures-if (IsDelivery env run) _
        (not (latest.uid == after.uid) || is_terminal latest.status.phase) _ _
        (λ b. Delivers-pure env run _)
        (λ b.
          let beq : (latest.uid == after.uid) ≡ true = ground (arith, b) in
          let live : is_terminal latest.status.phase ≡ false = ground (arith, b) in
          let same = eq_of_beq latest.uid after.uid beq in
          let signed = same_uid after.uid latest.uid sender outcome (sym same) genuine in
          Ensures-bind (IsDelivery env run) (IsConfirmed env latest.meta sender) _ _ _
            (confirm-IsConfirmed env (IsDelivery env run) latest sender)
            λ c _.
              with_target-Delivers env run latest _ c live
                λ target _. conclude-Delivers latest limit outcome sender target live signed ready)
    where
      same_uid :
          (u v : Text) (t : Target) (d : Delivery) → u ≡ v → Genuine env u t d → Genuine env v t d
      same_uid u v t d e g = subst (λ w. Genuine env w t d) e g

  due-bound :
      (after : AgentRun) (limit : Option Duration) (t : Time)
      → IsUnderway run after
      → is_zero run.creation_timestamp ≡ false
      → (delivery_deadline after limit t).at ≤ run.creation_timestamp + default_delivery_timeout
  due-bound after limit t u z =
      let made = ap (λ (m : ObjectMeta). m.creation_timestamp) u.meta in
      subst (λ c. (delivery_deadline after limit t).at ≤ c + default_delivery_timeout) made
        (delivery_deadline-bound after limit t (ap is_zero made ∙ z))

  deliver_before-Delivers :
      (after : AgentRun) (limit : Option Duration) (target : Target) (t : Time)
      → IsUnderway run after
      → IsTarget env run.meta target
      → Delivers env run (deliver_before env after limit target (delivery_deadline after limit t))
  unfolding deliver_before
  deliver_before-Delivers after limit target t u ready =
      Ensures-bind (IsDelivery env run) (Genuine env after.uid target) _ _ _
        (deliver-Genuine env (IsDelivery env run) after target (delivery_deadline after limit t).at
          λ challenge r. record {
            base = after;
            target = target;
            challenge = challenge;
            deadline = (delivery_deadline after limit t).at;
            same_meta = u.meta;
            same_spec = u.spec;
            legitimate = ready;
            sent = refl;
            due = due-bound after limit t u;
          })
        λ outcome genuine.
          Delivers-bind env run _ _ (Ensures-get_live_run (IsDelivery env run) env _ _)
            λ r. with_latest-Delivers after limit target outcome r genuine ready

  deliver_to-Delivers :
      (limit : Option Duration) (target : Target)
      → Faithful env
      → is_terminal run.status.phase ≡ false
      → Delivers env run (deliver_to env run limit target)
  unfolding deliver_to
  deliver_to-Delivers limit target faithful live =
      Ensures-bind (IsDelivery env run) (IsUnderway run) _ _ _
        (set_delivery_running-Underway target.pod.name faithful live)
        λ after u.
          Ensures-bind (IsDelivery env run) (IsConfirmed env after.meta target) _ _ _
            (confirm-IsConfirmed env (IsDelivery env run) after target)
            λ c confirmed'. with_target-Delivers env run after _ c u.live λ t e.
              let ready : IsTarget env run.meta t =
                subst (λ m. IsTarget env m t) u.meta
                  (subst (IsConfirmed env after.meta target) e confirmed').0 in
              before_deadline-Delivers env run after limit (deliver_before env after limit t) u.live
                λ now. deliver_before-Delivers after limit t now u ready

  with_budget-Delivers :
      (w : Wallclock)
      → Faithful env
      → is_terminal run.status.phase ≡ false
      → Delivers env run (with_budget env run w)
  with_budget-Delivers (bad_limit cause) faithful live = fail-Delivers env run run _ live
  with_budget-Delivers (allowed limit) faithful live =
      before_deadline-Delivers env run run limit (λ d. resolve_and_deliver env run limit) live
        λ t.
          Delivers-bind env run _ _
            (Ensures-weaken (IsDelivery env run) _ _ _ (λ r h. tt)
              (resolve-IsReady env (IsDelivery env run) run))
            λ r.
              with_target-Delivers env run run _ r live
                λ target _. deliver_to-Delivers limit target faithful live

  pub reconcile_delivery-Delivers : Faithful env → Delivers env run (reconcile_delivery env run)
  unfolding reconcile_delivery
  reconcile_delivery-Delivers faithful =
      Ensures-if (IsDelivery env run) _ (is_terminal run.status.phase) _ _
        (λ b. Delivers-pure env run _) (λ b. with_budget-Delivers _ faithful b)

  -- The reconciliation of a delivered run, where no other client changes the run between a patch and its
  -- answer, so that the answer has the patched status, the metadata and the spec: it creates and deletes
  -- nothing; it patches the status only of a run that has not ended, to one with a completion time exactly
  -- if its phase is terminal; it sends this run only to targets, with a deadline at most five minutes
  -- behind the creation of the run if that is known; and it reports a success only with the result of an
  -- envelope without a failed outcome, which came with status 200 in a body of at most 4096 bytes, as the
  -- server's answer to a request that delivers a run of the same UID to a target under a challenge drawn at
  -- random, and which is signed for that UID and that challenge with the target's token. A target is a
  -- Pod that is ready and controlled by a running run of a Service Agent that controls both that run
  -- and the delivered one, and its token is the one in that run's delivery Secret, which the run controls.
  pub reconcile_delivery-Calls :
      Faithful env → Calls (IsDelivery env run) (reconcile_delivery env run []).1
  unfolding Calls
  reconcile_delivery-Calls faithful = (reconcile_delivery-Delivers faithful).calls [] tt
