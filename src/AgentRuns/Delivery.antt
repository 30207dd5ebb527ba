-- ===== src/AgentRuns/Delivery.antt =====
-- internal/controller/agentrun_delivery.go: AgentRuns that the standing Pod of a Service serves. Here are
-- the times and the changes of status; `Target` finds the Pod, `Send` delivers to it, `Reconcile` is the
-- whole.
pub mod Target
pub mod Send
pub mod Reconcile
pub mod Verified
pub mod Conforms
pub mod Safety
pub mod Expiry
use kontext.Prelude.{
  ℕ, zero, suc, ◌+◌, ◌-◌, ◌*◌, Bool, true, false, List, [], ◌∷◌, Option, none, some, Text, text, ℤ,
  pos, negsuc, leb_ℤ, ltb, not, ◌==◌, nat_eq, if◌then◌else◌,
}
use kontext.Api.{
  Time, Duration, sub_time, is_zero, after, nanos_per_second, Condition, condition_false,
  condition_true, ConditionStatus, Message, plain, sprintf, pending, running, failed,
  budget_exceeded, AgentRun, AgentRunStatus,
}
use kontext.Controller.Kube.{Action, pure, ◌>>=◌}
use kontext.Controller.Status.{progressing, condition}
use kontext.AgentRuns.Cluster.{RunEnvironment, now, patch_status}
use kontext.AgentRuns.Status.{complete, time_or_now, with_conditions, transition_run, as_is}

-- 5 * time.Minute.
abbrev pub default_delivery_timeout : ℕ
default_delivery_timeout = 300 * nanos_per_second

abbrev seconds : ℕ → Duration
seconds n = pos (n * nanos_per_second)

-- t.Add(d); a time before year 1 is year 1.
abbrev pub add_time : Time → Duration → Time
add_time t (pos n) = t + n
add_time t (negsuc n) = t - suc n

-- deliveryDeadline: the time, with the wallclock budget where that is what ends first.
pub record Deadline : Type 0 where
  pub at : Time
  pub budget : Option Duration

abbrev pub earliest : Time → Option Duration → Option Time → Deadline
earliest deadline none start = record { at = deadline; budget = none }
earliest deadline (some limit) none = record { at = deadline; budget = none }
earliest deadline (some limit) (some start) =
    if not (after (add_time start limit) deadline)
    then record { at = add_time start limit; budget = some limit }
    else record { at = deadline; budget = none }

unfoldable pub delivery_deadline : AgentRun → Option Duration → Time → Deadline
delivery_deadline run limit now =
    let begins = if is_zero run.creation_timestamp then now else run.creation_timestamp in
    earliest (begins + default_delivery_timeout) limit run.status.start_time

unfoldable pub backoff_at : Duration → Duration
backoff_at elapsed =
    if leb_ℤ (seconds 120) elapsed
    then seconds 15
    else if leb_ℤ (seconds 30) elapsed
    then seconds 5
    else if leb_ℤ (seconds 5) elapsed
    then seconds 2
    else seconds 1

abbrev pub true_if : Bool → ConditionStatus
true_if true = condition_true
true_if false = condition_false

unfoldable pub delivery_conditions : Text → Message → Bool → List Condition
delivery_conditions reason message progressing' =
    condition complete condition_false reason message
    ∷ condition progressing (true_if progressing') reason message
    ∷ []

module _ (env : RunEnvironment) where
  unfoldable pub delivery_backoff : AgentRun → Action Duration
  delivery_backoff run = now env >>= λ t. pure (backoff_at (sub_time t run.creation_timestamp))

  unfoldable pub set_delivery_waiting : AgentRun → Text → Message → Action AgentRun
  set_delivery_waiting run reason message = patch_status env run (
      with_conditions env run
        (record run.status { phase = pending; message = message; completion_time = none })
        (delivery_conditions reason message true))

  abbrev pub delivering : Text → Message
  delivering pod_name =
      sprintf (text "Delivering agent run to standing Service Pod %s.") (pod_name ∷ [])

  unfoldable pub set_delivery_running : AgentRun → Text → Action AgentRun
  set_delivery_running run pod_name = time_or_now env run.status.start_time >>= λ start.
      patch_status env run (
        with_conditions env run
          (record run.status {
            phase = running;
            pod_name = pod_name;
            message = delivering pod_name;
            start_time = start;
            completion_time = none;
          })
          (delivery_conditions (text "Delivering") (delivering pod_name) true))

  unfoldable pub fail_delivery_timeout : AgentRun → Action AgentRun
  fail_delivery_timeout run =
      transition_run env run failed
        (sprintf (text "Service delivery timed out after %s.")
          (env.show_duration (pos default_delivery_timeout) ∷ []))
        as_is

  unfoldable pub exceed_delivery_budget : AgentRun → Duration → Action AgentRun
  exceed_delivery_budget run limit =
      transition_run env run budget_exceeded
        (sprintf (text "Wallclock budget exceeded after %s.") (env.show_duration limit ∷ [])) as_is
