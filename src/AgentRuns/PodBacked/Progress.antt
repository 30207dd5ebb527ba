-- ===== src/AgentRuns/PodBacked/Progress.antt =====
-- What the reconciliation of a run with a Pod of its own does bring about.
use kontext.Prelude.{
  List, ◌≡◌, refl, ◌∙◌, inl, inr, true, false, [], ◌∷◌, Option, none, some, Text, text, ◌==◌,
  nat_eq, list_eq, list_beq, Bool-cases,
}
use kontext.Api.{
  plain, Duration, OwnerReference, pending, is_terminal, AgentRun, AgentRunStatus,
  RuntimeDeliverySpec,
}
use kontext.PodBuilder.Core.{Pod}
use kontext.PodBuilder.Names.{pod_name_for_run, legacy_pod_name_for_run}
use kontext.PodBuilder.Env.{built}
use kontext.PodBuilder.Build.{build_pod_with_config}
use kontext.Controller.Kube.{
  Event, GetReply, found, not_found, CreateReply, created, already_exists, create_failed, raise,
  RunCall, call, History, Outcome, done, failed, stuck, carry_on, no_requeue, api_error, Action,
  pure, ◌>>=◌, Requeue,
}
use kontext.AgentRuns.Cluster.{or_error, RunEnvironment, get_cached_pod, create_pod, patch_status}
use kontext.AgentRuns.Calls.{calls_of}
use kontext.AgentRuns.Status.{
  allowed, parse_wallclock_budget, transition_run, with_conditions, with_pod_name,
  for_agent_run_phase,
}
use kontext.AgentRuns.PodBacked.{
  after_create, create_owned, credential_secret, missing, owned_pod, pod_name_of,
  reconcile_missing_pod,
}
use kontext.AgentRuns.PodBacked.Reconcile.{
  cached_reply, find_legacy, find_pod, reconcile_pod_backed,
}

module _ {A B : Type 0} where
  pub bind_done :
      (m : Action A) (f : A → Action B) (h h' : History) (a : A)
      → m h ≡ (done a, h')
      → (m >>= f) h ≡ f a h'
  unfolding ◌>>=◌
  bind_done m f h h' a e = rw e refl

  history_kept : (o : Outcome A) (b : B) (h : History) → (carry_on (λ (_ : A). pure b) o h).1 ≡ h
  unfolding pure
  history_kept (done a) b h = refl
  history_kept (failed e) b h = refl
  history_kept stuck b h = refl

  pub bind_pure : (m : Action A) (b : B) (h : History) → ((m >>= λ _. pure b) h).1 ≡ (m h).1
  unfolding ◌>>=◌
  bind_pure m b h = history_kept (m h).0 b (m h).1

module _ (env : RunEnvironment) (run : AgentRun) where
  -- The run has no Pod recorded, and the cache has none under its name or its legacy name.
  pub record NoPod : Type 0 where
    pub unrecorded : run.status.pod_name ≡ []
    pub named :
        (h : History)
        → env.cached_pod h run.namespace (pod_name_for_run env.hash8 run.name) ≡ not_found
    pub legacy :
        (h : History)
        → env.cached_pod h run.namespace (legacy_pod_name_for_run run.name) ≡ not_found

  name_when_unrecorded :
      run.status.pod_name ≡ [] → pod_name_of env run ≡ pod_name_for_run env.hash8 run.name
  unfolding list_beq
  name_when_unrecorded e = rw e refl

  unrecorded_test : run.status.pod_name ≡ [] → (run.status.pod_name == []) ≡ true
  unfolding list_beq
  unrecorded_test e = rw e refl

  get_none :
      (ns name : Text) (h : History)
      → env.cached_pod h ns name ≡ not_found
      → get_cached_pod env ns name h
        ≡ (done not_found, kontext.Controller.Kube.get_cached ns name ∷ h)
  unfolding get_cached_pod
  get_none ns name h e = rw e refl

  find_legacy-none :
      (name : Text) (h : History)
      → NoPod
      → (h' : History) × (find_legacy env run name h ≡ (done (missing name), h'))
        × (calls_of h' ≡ calls_of h)
  unfolding pure calls_of
  find_legacy-none name h n =
      let legacy = legacy_pod_name_for_run run.name in
      elim (Bool-cases (legacy == name)) [
        | inl b ↦ (h, rw b refl, refl)
        | inr b ↦ (
          Event.get_cached run.namespace legacy ∷ h,
          rw b (bind_done _ _ h _ _ (get_none run.namespace legacy h (n.legacy h))),
          refl,
        )
      ]

  find_pod-none :
      (h : History)
      → NoPod
      → (h' : History) × (find_pod env run h
          ≡ (done (missing (pod_name_for_run env.hash8 run.name)), h'))
        × (calls_of h' ≡ calls_of h)
  unfolding find_pod list_beq calls_of
  find_pod-none h n =
      let name = pod_name_for_run env.hash8 run.name in
      let h1 : History = Event.get_cached run.namespace name ∷ h in
      let (h2, e, kept) = find_legacy-none name h1 n in
      (
        h2,
        rw (name_when_unrecorded n.unrecorded) (
            bind_done (get_cached_pod env run.namespace name) (cached_reply env run name) h h1
              not_found (get_none run.namespace name h (n.named h))
            ∙ rw (unrecorded_test n.unrecorded) e),
        kept,
      )

  -- A patch that reports the run as pending, with the name of its Pod.
  pub record IsPending (next : AgentRunStatus) : Type 0 where
    pub phase : next.phase ≡ pending
    pub pod_name : next.pod_name ≡ pod_name_for_run env.hash8 run.name

  -- All that was asked, by the server's answer to the creation: the Pod, and then the report, unless the
  -- creation failed.
  abbrev pub IsAsked : Pod → CreateReply → List RunCall → Type 0
  IsAsked pod create_failed calls = calls ≡ RunCall.create_pod pod create_failed ∷ []
  IsAsked pod r calls =
      (next : AgentRunStatus) × (reply : Option AgentRun) × (calls
        ≡ RunCall.patch_run run next reply ∷ RunCall.create_pod pod r ∷ [])
      × IsPending next

  pub record IsStarted (pod : Pod) (ref : OwnerReference) (h : History) : Type 0 where
    pub created_at : History
    pub asked :
        IsAsked
          (owned_pod env pod ref)
          (env.create_pod created_at (owned_pod env pod ref))
          (calls_of h)

  after_transition :
      (pod : Pod) (r : CreateReply) (h : History)
      → calls_of h ≡ []
      → (next : AgentRunStatus) × (reply : Option AgentRun) × (calls_of
            ((transition_run env run pending
                  (plain (text "Agent run pod requested."))
                  (with_pod_name (pod_name_for_run env.hash8 run.name))
                >>= λ _. pure no_requeue)
              (call (RunCall.create_pod pod r) ∷ h)).1
          ≡ RunCall.patch_run run next reply ∷ RunCall.create_pod pod r ∷ [])
        × IsPending next
  unfolding transition_run patch_status ◌>>=◌ pure calls_of
  after_transition pod r h none_yet =
      let h1 : History = call (RunCall.create_pod pod r) ∷ h in
      let next : AgentRunStatus = started_status in
      let reply = env.patch_run_status h1 run next in
      (
        next,
        reply,
        rw
            (history_kept (or_error api_error reply) no_requeue
              (call (RunCall.patch_run run next reply) ∷ h1))
            (rw none_yet refl),
        record { phase = refl; pod_name = refl },
      )
    where
      started_status : AgentRunStatus
      started_status =
          with_conditions env run
            (record run.status {
              phase = pending;
              message = plain (text "Agent run pod requested.");
              pod_name = pod_name_for_run env.hash8 run.name;
              completion_time = none;
            })
            (for_agent_run_phase pending)

  answered-IsAsked :
      (pod : Pod) (r : CreateReply) (h : History)
      → calls_of h ≡ []
      → IsAsked pod r (
          calls_of
            (after_create env run
              (pod_name_for_run env.hash8 run.name)
              r
              (call (RunCall.create_pod pod r) ∷ h)).1)
  unfolding raise calls_of
  answered-IsAsked pod create_failed h none_yet = rw none_yet refl
  answered-IsAsked pod created h none_yet = after_transition pod created h none_yet
  answered-IsAsked pod already_exists h none_yet = after_transition pod already_exists h none_yet

  created-IsStarted :
      (pod : Pod) (ref : OwnerReference) (h : History)
      → calls_of h ≡ []
      → IsStarted pod ref
          (create_owned env run (pod_name_for_run env.hash8 run.name) pod (some ref) h).1
  unfolding create_pod ◌>>=◌
  created-IsStarted pod ref h none_yet = record {
    created_at = h;
    asked = answered-IsAsked (owned_pod env pod ref) _ h none_yet;
  }

  no_credential :
      (d : Option RuntimeDeliverySpec) (h : History)
      → d ≡ none
      → credential_secret env run d h ≡ (done [], h)
  unfolding pure
  no_credential none h e = refl
  no_credential (some d) h e = absurd (cc e)

  missing-IsStarted :
      (pod : Pod) (ref : OwnerReference) (h : History)
      → run.status.pod_name ≡ []
      → run.spec.runtime.delivery ≡ none
      → build_pod_with_config env.hash8 env.show_float run
          (record { reporter_image = env.reporter_image; delivery_credential_secret = [] })
        ≡ built pod
      → env.set_controller_reference run pod.meta ≡ some ref
      → calls_of h ≡ []
      → IsStarted pod ref (reconcile_missing_pod env run (pod_name_for_run env.hash8 run.name) h).1
  unfolding reconcile_missing_pod
  missing-IsStarted pod ref h unrecorded no_delivery builds owned none_yet =
      rw (unrecorded_test unrecorded) (
        rw
          (bind_done (credential_secret env run run.spec.runtime.delivery) _ h h []
            (no_credential run.spec.runtime.delivery h no_delivery))
          (rw (builds, owned) (created-IsStarted pod ref h none_yet)))

  -- A run that is active and without delivery in its runtime, with a valid budget and configuration, with
  -- no Pod recorded, and with none in the cache under its name or its legacy name, gets its Pod, whatever
  -- the server answers: the reconciliation asks for the built Pod with the run as its controller, and
  -- then, unless the creation failed, for one patch, which reports the run as pending with the name of
  -- the Pod, and it asks for nothing else.
  pub reconcile_pod_backed-starts :
      (pod : Pod) (ref : OwnerReference) (limit : Option Duration)
      → is_terminal run.status.phase ≡ false
      → NoPod
      → parse_wallclock_budget env run.spec.budget ≡ allowed limit
      → run.spec.runtime.delivery ≡ none
      → build_pod_with_config env.hash8 env.show_float run
          (record { reporter_image = env.reporter_image; delivery_credential_secret = [] })
        ≡ built pod
      → env.set_controller_reference run pod.meta ≡ some ref
      → IsStarted pod ref (reconcile_pod_backed env run []).1
  unfolding reconcile_pod_backed calls_of
  reconcile_pod_backed-starts pod ref limit live n budget no_delivery builds owned =
      let (h, e, kept) = find_pod-none [] n in
      rw live (
        rw (bind_done (find_pod env run) _ [] h _ e)
          (rw budget (missing-IsStarted pod ref h n.unrecorded no_delivery builds owned kept)))
