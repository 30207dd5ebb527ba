-- ===== src/PodStatus/Terminal.antt =====
-- When a Pod's AgentRun has ended, and when it has succeeded.
use kontext.Prelude.{
  ◌≡◌, ◌≢◌, ◌↔◌, refl, sym, ap, ◌∙◌, inl, inr, ◌⊎◌, Bool, true, [], Option, none, some, trim_space,
  ◌==◌, int_eq, pos, list_eq, nat_eq, eq_of_beq, beq_refl, Bool-cases, arith,
}
use kontext.Api.{Time, succeeded, failed, is_terminal}
use kontext.Result.{Json, ResultOutcome, Envelope, Parsed, parsed, malformed, parse}
use kontext.PodStatus.{
  PodPhase, pod_pending, pod_running, pod_succeeded, pod_failed, Terminated, Waiting,
  ContainerStatus, Pod, is_failed_outcome, observe_result_envelope, zero_exit, failed_exit,
  observation_from_termination, by_pod_phase, by_waiting, by_terminated, by_running, by_container,
  by_status, runtime_container_status, observe_pod,
}

module _ (json : Json) where
  failed_outcome : (o : ResultOutcome) → is_failed_outcome o ≡ true → o ≡ ResultOutcome.failed
  failed_outcome o h = ground arith

  pub envelope-succeeded :
      (e : Envelope)
      → ((observe_result_envelope json e).phase ≡ succeeded) ↔ (e.outcome ≢ ResultOutcome.failed)
  unfolding observe_result_envelope
  envelope-succeeded e = elim (Bool-cases (is_failed_outcome e.outcome)) [
    | inl b ↦ (λ h. absurd (cc (rw b at h)), λ h. absurd (h (failed_outcome e.outcome b)))
    | inr b ↦ (λ h q. cc (b, ap is_failed_outcome q), λ h. rw b refl)
  ]

  pub envelope-ends : (e : Envelope) → is_terminal (observe_result_envelope json e).phase ≡ true
  unfolding observe_result_envelope
  envelope-ends e = elim (Bool-cases (is_failed_outcome e.outcome)) [
    | inl b ↦ rw b refl
    | inr b ↦ rw b refl
  ]

  abbrev pub Succeeds : Terminated → Type 0
  Succeeds t =
      (t.exit_code ≡ pos 0)
      × (e : Envelope) × (legacy : Bool) × (parse json (trim_space t.message) ≡ parsed e legacy)
      × (e.outcome ≢ ResultOutcome.failed)

  -- The runtime container has ended.
  abbrev pub Ended : Option ContainerStatus → Type 0
  Ended o =
      (c : ContainerStatus) × (t : Terminated) × (o ≡ some c)
      × (c.running ≡ none)
      × (c.terminated ≡ some t)

  abbrev pub PodEnded : PodPhase → Type 0
  PodEnded phase = (phase ≡ pod_succeeded) ⊎ (phase ≡ pod_failed)

  pod_phase-Ended :
      (phase : PodPhase) → is_terminal (by_pod_phase json phase).phase ≡ true → PodEnded phase
  pod_phase-Ended phase h = ground arith

  waiting-Ended :
      (phase : PodPhase) (w : Option Waiting)
      → is_terminal (by_waiting json phase w).phase ≡ true
      → PodEnded phase
  waiting-Ended phase none h = pod_phase-Ended phase h
  waiting-Ended phase (some w) h = elim (Bool-cases (w.reason == [])) [
    | inl b ↦ pod_phase-Ended phase (rw b at h)
    | inr b ↦ absurd (cc (rw b at h))
  ]

  terminated-Ended :
      (phase : PodPhase) (c : ContainerStatus) (t : Option Terminated)
      → c.running ≡ none
      → c.terminated ≡ t
      → is_terminal (by_terminated json phase t c.waiting).phase ≡ true
      → Ended (some c) ⊎ PodEnded phase
  terminated-Ended phase c (some t) r e h = inl (c, t, refl, r, e)
  terminated-Ended phase c none r e h = inr (waiting-Ended phase c.waiting h)

  running-Ended :
      (phase : PodPhase) (c : ContainerStatus) (r : Option Time)
      → c.running ≡ r
      → is_terminal (by_running json phase r c).phase ≡ true
      → Ended (some c) ⊎ PodEnded phase
  running-Ended phase c (some started) e h = absurd (cc h)
  running-Ended phase c none e h = terminated-Ended phase c c.terminated e refl h

  container-Ended :
      (phase : PodPhase) (o : Option ContainerStatus)
      → is_terminal (by_container json phase o).phase ≡ true
      → Ended o ⊎ PodEnded phase
  container-Ended phase none h = inr (pod_phase-Ended phase h)
  container-Ended phase (some c) h = running-Ended phase c c.running refl h

  status-Ended :
      (phase : PodPhase) (o : Option ContainerStatus)
      → is_terminal (by_status json phase o).phase ≡ true
      → (phase ≢ pod_pending) × (Ended o ⊎ PodEnded phase)
  status-Ended pod_pending o h = absurd (cc h)
  status-Ended pod_running o h = (λ e. cc e, container-Ended pod_running o h)
  status-Ended pod_succeeded o h = (λ e. cc e, container-Ended pod_succeeded o h)
  status-Ended pod_failed o h = (λ e. cc e, container-Ended pod_failed o h)
  status-Ended (PodPhase.other t) o h = (λ e. cc e, container-Ended (PodPhase.other t) o h)

  -- A Pod is observed in a terminal phase only if it is not pending, and its runtime container has
  -- terminated and does not run, or the Pod itself has succeeded or failed.
  pub observe_pod-Ended :
      (pod : Pod)
      → is_terminal (observe_pod json pod).phase ≡ true
      → (pod.phase ≢ pod_pending)
        × (Ended (runtime_container_status pod.container_statuses) ⊎ PodEnded pod.phase)
  unfolding observe_pod
  observe_pod-Ended pod h =
      status-Ended pod.phase (runtime_container_status pod.container_statuses) h

  zero-Succeeds :
      (t : Terminated) (p : Parsed)
      → parse json (trim_space t.message) ≡ p
      → t.exit_code ≡ pos 0
      → ((zero_exit json p).phase ≡ succeeded) ↔ Succeeds t
  zero-Succeeds t (malformed m) e z =
      (λ h. absurd (cc h), λ s. let (_, x, l, q, _) = s in absurd (cc (e, q)))
  zero-Succeeds t (parsed x l) e z = (
    λ h. (z, x, l, e, (envelope-succeeded x).0 h),
    λ s.
        let (_, x', l', q, n) = s in
        let both : parsed x l ≡ parsed x' l' = sym e ∙ q in
        let same : x ≡ x' = ground arith in
        (envelope-succeeded x).1 (λ f. n (ap (λ (y : Envelope). y.outcome) (sym same) ∙ f)),
  )

  failed_exit-failed : (t : Terminated) (p : Parsed) → (failed_exit json t p).phase ≡ failed
  failed_exit-failed t (malformed m) = refl
  failed_exit-failed t (parsed x l) = refl

  -- A terminated runtime container counts as a success exactly if it exited with code 0 and its
  -- termination message parses to an envelope whose outcome is not Failed.
  pub observation-Succeeds :
      (t : Terminated) → ((observation_from_termination json t).phase ≡ succeeded) ↔ Succeeds t
  unfolding observation_from_termination
  observation-Succeeds t = elim (Bool-cases (t.exit_code == pos 0)) [
    | inl b ↦
        rw b (
          zero-Succeeds t (parse json (trim_space t.message)) refl
            (eq_of_beq t.exit_code (pos 0) b))
    | inr b ↦
        let f = failed_exit-failed t (parse json (trim_space t.message)) in
        rw b (
          λ h. absurd (cc (f, h)),
          λ s. absurd (cc (b, ap (λ x. x == pos 0) s.0, beq_refl (pos 0))),
        )
  ]
