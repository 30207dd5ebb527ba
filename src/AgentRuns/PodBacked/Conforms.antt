-- ===== src/AgentRuns/PodBacked/Conforms.antt =====
-- The whole reconciliation of a run with a Pod of its own asks only for what is allowed.
use kontext.Prelude.{
  arith, ◌≡◌, refl, sym, ap, ◌∙◌, inl, inr, true, false, not, [], Option, none, some, Text, ◌==◌,
  nat_eq, list_eq, Bool-cases, is_some, leb_ℤ,
}
use kontext.Api.{Time, Duration, sub_time, budget_exceeded, is_terminal, AgentRun, AgentRunStatus}
use kontext.PodStatus.{PodObservation, observe_pod}
use kontext.PodBuilder.Core.{Pod}
use kontext.PodBuilder.Names.{legacy_pod_name_for_run}
use kontext.Controller.Kube.{GetReply, found, not_found, get_failed}
use kontext.AgentRuns.Cluster.{RunEnvironment}
use kontext.AgentRuns.Calls.{
  Anything, Calls, Ensures, Ensures-bind, Ensures-get_cached_pod, Ensures-get_live_pod, Ensures-if,
  Ensures-now, Ensures-patch_status, Ensures-pure, Ensures-raise, Ensures-weaken,
}
use kontext.AgentRuns.Status.{Wallclock, allowed, bad_limit}
use kontext.AgentRuns.Transitions.{IsConsistent, Faithful, time_or_now-set, transition_run-Ensures}
use kontext.AgentRuns.PodBacked.{
  Enforced, Located, completion_of, enforce_since, enforce_wallclock, exceed, is_pod_running,
  is_running, keep_output, keep_usage, located, missing, observed, start_for, started,
  sync_pod_observation,
}
use kontext.AgentRuns.PodBacked.Reconcile.{
  adopt, after_enforced, cached_reply, find_pod, live_reply, reconcile_pod_backed, with_budget,
  with_limit, with_pod,
}
use kontext.AgentRuns.PodBacked.Safety.{
  Allows, Allows-bind, Allows-pure, IsAllowed, ended-Allows, fail_invalid_wallclock-Allows,
  fail_pod_name_collision-Allows, reconcile_missing_pod-Allows, remove_pod-Allows,
}

none_of : (o : Option Time) → is_some o ≡ false → o ≡ none
none_of none h = refl
none_of (some t) h = absurd (cc h)

observed-phase :
    (o : PodObservation) (name : Text) (s : AgentRunStatus) → (observed o name s).phase ≡ o.phase
observed-phase o name s = usage o.usage o.output
  where
    usage :
        (u : Option _) (out : Option _)
        → (keep_usage u (
            keep_output out o.result
              (record s { phase = o.phase; pod_name = name; message = o.message }))).phase
          ≡ o.phase
    usage none none = refl
    usage none (some x) = refl
    usage (some u) none = refl
    usage (some u) (some x) = refl

module _ (env : RunEnvironment) (run : AgentRun) where
  abbrev Owned : Pod → Type 0
  Owned pod = env.is_controlled_by_run pod.meta run ≡ true

  start_for-Allows : (o : PodObservation) (t : Option Time) → Allows env run (start_for env o t)
  start_for-Allows o (some t) = Allows-pure env run _
  start_for-Allows o none =
      Ensures-if (IsAllowed env run) _ (is_running o.phase) _ _
        (λ b.
          Ensures-weaken (IsAllowed env run) _ _ _ (λ t x. tt)
            (time_or_now-set (IsAllowed env run) env o.started_at))
        (λ b. Allows-pure env run _)

  completion_of-set :
      (o : PodObservation) (t : Option Time)
      → is_some t ≡ false
      → Ensures (IsAllowed env run) (completion_of env o t) (λ c. is_some c ≡ is_terminal o.phase)
  completion_of-set o t h =
      Ensures-if (IsAllowed env run) _ (is_terminal o.phase) _ _
        (λ b. rw b (time_or_now-set (IsAllowed env run) env t))
        (λ b. Ensures-pure (IsAllowed env run) _ _ (h ∙ sym b))

  sync_pod_observation-Allows :
      (base : AgentRun) (pod : Pod) (name : Text)
      → is_terminal base.status.phase ≡ false
      → IsConsistent base.status
      → Allows env run (sync_pod_observation env base pod name)
  unfolding sync_pod_observation
  sync_pod_observation-Allows base pod name live consistent =
      let o = observe_pod env.json pod.status in
      Allows-bind env run _ _ (start_for-Allows o base.status.start_time) λ start.
        Ensures-bind (IsAllowed env run) _ _ _ _
          (completion_of-set o base.status.completion_time (consistent ∙ live))
          λ completion c.
            Ensures-patch_status (IsAllowed env run) env _ base _
              (λ r. record {
                active = live;
                consistent = c ∙ ap is_terminal (sym (observed-phase o name base.status));
              })
              (λ h after e. tt)

  abbrev Keeps : Enforced → Type 0
  Keeps e = IsConsistent e.run.status

  module _ (faithful : Faithful env) (consistent : IsConsistent run.status)
      (live : is_terminal run.status.phase ≡ false) where
    exceed-Keeps :
        (pod : Pod) (limit : Duration) (at : Time)
        → Owned pod
        → Ensures (IsAllowed env run) (exceed env run pod limit at) Keeps
    exceed-Keeps pod limit at owned =
        Ensures-bind (IsAllowed env run) (λ (after : AgentRun). IsConsistent after.status) _ _ _
          (transition_run-Ensures (IsAllowed env run) env _ run budget_exceeded _
            (started pod.name at) live (λ s. refl) (λ next r e a. a)
            (λ h next after e a x. rw (faithful.status h run next after x) a.consistent))
          λ after c.
            Ensures-bind (IsAllowed env run) Anything _ _ _ (remove_pod-Allows env run pod owned)
              λ u _. Ensures-pure (IsAllowed env run) _ _ c

    enforce_since-Keeps :
        (pod : Pod) (limit : Duration) (at : Option Time)
        → Owned pod
        → Ensures (IsAllowed env run) (enforce_since env run pod limit at) Keeps
    enforce_since-Keeps pod limit none owned = Ensures-pure (IsAllowed env run) _ _ consistent
    enforce_since-Keeps pod limit (some at) owned =
        Ensures-bind (IsAllowed env run) Anything _ _ _ (Ensures-now (IsAllowed env run) env) λ t _.
          Ensures-if (IsAllowed env run) _ (leb_ℤ (sub_time t at) limit) _ _
            (λ b. Ensures-pure (IsAllowed env run) _ _ consistent)
            (λ b. exceed-Keeps pod limit at owned)

    enforce_wallclock-Keeps :
        (pod : Pod) (limit : Option Duration)
        → Owned pod
        → Ensures (IsAllowed env run) (enforce_wallclock env run pod limit) Keeps
    unfolding enforce_wallclock
    enforce_wallclock-Keeps pod none owned = Ensures-pure (IsAllowed env run) _ _ consistent
    enforce_wallclock-Keeps pod (some limit) owned =
        Ensures-if (IsAllowed env run) _ (not (is_pod_running pod.status.phase)) _ _
          (λ b. Ensures-pure (IsAllowed env run) _ _ consistent)
          (λ b. enforce_since-Keeps pod limit _ owned)

    after_enforced-Allows :
        (pod : Pod) (name : Text) (e : Enforced)
        → Keeps e
        → Allows env run (after_enforced env pod name e)
    after_enforced-Allows pod name e c =
        Ensures-if (IsAllowed env run) _ (is_terminal e.run.status.phase) _ _
          (λ b. Allows-pure env run _)
          (λ b.
            Allows-bind env run _ _ (sync_pod_observation-Allows e.run pod name b c)
              λ after. Allows-pure env run _)

    with_limit-Allows :
        (name : Text) (limit : Option Duration) (o : Option Pod)
        → ((pod : Pod) → o ≡ some pod → Owned pod)
        → Allows env run (with_limit env run name limit o)
    with_limit-Allows name limit none owned = reconcile_missing_pod-Allows env run name live
    with_limit-Allows name limit (some pod) owned =
        Ensures-bind (IsAllowed env run) Keeps _ _ _
          (enforce_wallclock-Keeps pod limit (owned pod refl))
          λ e c. after_enforced-Allows pod name e c

    with_budget-Allows :
        (l : Located) (w : Wallclock)
        → ((pod : Pod) → l.pod ≡ some pod → Owned pod)
        → Allows env run (with_budget env run l w)
    with_budget-Allows l (bad_limit cause) owned =
        fail_invalid_wallclock-Allows env run l.pod cause live owned
    with_budget-Allows l (allowed limit) owned = with_limit-Allows l.pod_name limit l.pod owned

    with_pod-Allows : (name : Text) (o : Option Pod) → Allows env run (with_pod env run name o)
    with_pod-Allows name none = with_budget-Allows (missing name) _ λ pod e. absurd (cc e)
    with_pod-Allows name (some pod) = elim (Bool-cases (env.is_controlled_by_run pod.meta run)) [
      | inl b ↦ rw b (
          with_budget-Allows (located name pod) _ λ p e.
            let same : p ≡ pod = ground arith in
            ap (λ (x : Pod). env.is_controlled_by_run x.meta run) same ∙ b)
      | inr b ↦ rw b (fail_pod_name_collision-Allows env run pod live)
    ]

    adopt-Allows :
        (name legacy : Text) (r : GetReply Pod) → Allows env run (adopt env run name legacy r)
    adopt-Allows name legacy get_failed = Ensures-raise (IsAllowed env run) _ _
    adopt-Allows name legacy not_found = Allows-pure env run _
    adopt-Allows name legacy (found pod) =
        Ensures-if (IsAllowed env run) _ (env.is_controlled_by_run pod.meta run) _ _
          (λ b. Allows-pure env run _) (λ b. Allows-pure env run _)

    live_reply-Allows : (name : Text) (r : GetReply Pod) → Allows env run (live_reply env name r)
    live_reply-Allows name get_failed = Ensures-raise (IsAllowed env run) _ _
    live_reply-Allows name not_found = Allows-pure env run _
    live_reply-Allows name (found pod) = Allows-pure env run _

    cached_reply-Allows :
        (name : Text) (r : GetReply Pod) → Allows env run (cached_reply env run name r)
    cached_reply-Allows name get_failed = Ensures-raise (IsAllowed env run) _ _
    cached_reply-Allows name (found pod) = Allows-pure env run _
    cached_reply-Allows name not_found =
        Ensures-if (IsAllowed env run) _ (run.status.pod_name == []) _ _
          (λ b.
            Ensures-if (IsAllowed env run) _ (legacy_pod_name_for_run run.name == name) _ _
              (λ c. Allows-pure env run _)
              (λ c.
                Allows-bind env run _ _ (Ensures-get_cached_pod (IsAllowed env run) env _ _)
                  λ r. adopt-Allows name _ r))
          (λ b.
            Ensures-if (IsAllowed env run) _ (not env.has_api_reader) _ _
              (λ c. Ensures-raise (IsAllowed env run) _ _)
              (λ c.
                Allows-bind env run _ _ (Ensures-get_live_pod (IsAllowed env run) env _ _)
                  λ r. live_reply-Allows name r))

    find_pod-Allows : Allows env run (find_pod env run)
    unfolding find_pod
    find_pod-Allows =
        Allows-bind env run _ _ (Ensures-get_cached_pod (IsAllowed env run) env _ _)
          λ r. cached_reply-Allows _ r

  pub reconcile_pod_backed-Allows :
      Faithful env → IsConsistent run.status → Allows env run (reconcile_pod_backed env run)
  unfolding reconcile_pod_backed
  reconcile_pod_backed-Allows faithful consistent =
      Ensures-if (IsAllowed env run) _ (is_terminal run.status.phase) _ _
        (λ b. ended-Allows env run run.status.phase)
        (λ b.
          Allows-bind env run _ _ (find_pod-Allows faithful consistent b)
            λ l. with_pod-Allows faithful consistent b l.pod_name l.pod)

  -- The reconciliation of a run with a Pod of its own, where the status that it reads has a completion
  -- time exactly if its phase is terminal, and where no other client changes the run between a patch and
  -- its answer, so that the answer has the patched status, the metadata and the spec: it patches the status only of a run that has not ended, to one with a completion time exactly if
  -- its phase is terminal, it deletes only Pods that the run controls, it creates a Pod only for an
  -- active run with no recorded Pod, under the name that is determined by the run's, and delivers
  -- nothing.
  pub reconcile_pod_backed-Calls :
      Faithful env
      → IsConsistent run.status
      → Calls (IsAllowed env run) (reconcile_pod_backed env run []).1
  unfolding Calls
  reconcile_pod_backed-Calls faithful consistent =
      (reconcile_pod_backed-Allows faithful consistent).calls [] tt
