-- ===== src/AgentRuns/PodBacked/Safety.antt =====
-- What the reconciliation of a run with a Pod of its own may ask for.
use kontext.Prelude.{
  arith, ◌≡◌, refl, sym, ap, inl, inr, true, false, not, [], Option, none, some, Text, ◌==◌, nat_eq,
  list_eq, eq_of_beq, Bool-cases,
}
use kontext.Api.{
  Message, OwnerReference, AgentRunPhase, unset, pending, running, succeeded, failed,
  budget_exceeded, is_terminal, AgentRun, AgentRunStatus, RuntimeDeliverySpec,
}
use kontext.PodBuilder.Core.{Pod}
use kontext.PodBuilder.Names.{pod_name_for_run}
use kontext.PodBuilder.Env.{build_env, Built, built, invalid, built-bind}
use kontext.PodBuilder.Build.{build_pod_with_config, Config, Parts, pod_of, with_parts}
use kontext.AgentRuns.Secrets.{ensure_delivery_credential-Ensures}
use kontext.Controller.Kube.{
  CreateReply, GetReply, found, not_found, get_failed, DeleteReply, delete_failed, create_failed,
  RunCall, Action, pure, ◌>>=◌, Requeue,
}
use kontext.AgentRuns.Cluster.{RunEnvironment}
use kontext.AgentRuns.Calls.{
  Anything, Ensures, Ensures-bind, Ensures-create_pod, Ensures-delete_pod, Ensures-get_live_pod,
  Ensures-if, Ensures-pure, Ensures-raise,
}
use kontext.AgentRuns.Status.{with_pod_name, as_is, transition_run}
use kontext.AgentRuns.Transitions.{Advances, transition_run-Ensures}
use kontext.AgentRuns.PodBacked.{
  after_create, cleared, create_built, create_owned, credential_secret, delete_budget_exceeded_pod,
  delete_if_owned, existing_name, fail_invalid_wallclock, fail_pod_name_collision, ignoring_missing,
  owned_pod, reconcile_missing_pod, remove_existing, remove_pod,
}
use kontext.AgentRuns.PodBacked.Reconcile.{ended}

module _ (env : RunEnvironment) (run : AgentRun) where
  -- A Pod that may be created: the run is active and no Pod is recorded for it.
  pub record MayCreate (pod : Pod) : Type 0 where
    pub active : is_terminal run.status.phase ≡ false
    pub unrecorded : run.status.pod_name ≡ []
    pub name : pod.name ≡ pod_name_for_run env.hash8 run.name
    pub namespace : pod.namespace ≡ run.namespace

  abbrev pub IsAllowed : RunCall → Type 0
  IsAllowed (RunCall.create_pod pod r) = MayCreate pod
  IsAllowed (RunCall.delete_pod pod r) = env.is_controlled_by_run pod.meta run ≡ true
  IsAllowed (RunCall.create_secret secret r) =
      (is_terminal run.status.phase ≡ false) × (run.status.pod_name ≡ [])
  IsAllowed (RunCall.patch_run base next r) = Advances base next
  IsAllowed (RunCall.post request r) = ⊥

  -- Nothing is known of the result.
  abbrev pub Allows : {A : Type 0} → Action A → Type 0
  Allows m = Ensures IsAllowed m Anything

  pub Allows-bind :
      {A B : Type 0} (m : Action A) (f : A → Action B)
      → Allows m
      → ((a : A) → Allows (f a))
      → Allows (m >>= f)
  Allows-bind m f em ef = Ensures-bind IsAllowed Anything Anything m f em λ a _. ef a

  pub Allows-pure : {A : Type 0} (a : A) → Allows (pure a)
  Allows-pure a = Ensures-pure IsAllowed Anything a tt

  pub remove_pod-Allows :
      (pod : Pod) → env.is_controlled_by_run pod.meta run ≡ true → Allows (remove_pod env pod)
  remove_pod-Allows pod owned =
      Allows-bind _ _ (Ensures-delete_pod IsAllowed env pod (λ r. owned)) ignoring
    where
      ignoring : (r : DeleteReply) → Allows (ignoring_missing env r)
      ignoring delete_failed = Ensures-raise IsAllowed _ _
      ignoring DeleteReply.deleted = Allows-pure tt
      ignoring DeleteReply.already_gone = Allows-pure tt

  pub transition-Allows :
      (base : AgentRun) (phase : AgentRunPhase) (message : Message)
      (update : AgentRunStatus → AgentRunStatus)
      → is_terminal base.status.phase ≡ false
      → ((s : AgentRunStatus) → (update s).phase ≡ s.phase)
      → Allows (transition_run env base phase message update)
  transition-Allows base phase message update live keeps =
      transition_run-Ensures IsAllowed env Anything base phase message update live keeps
        (λ next r e a. a) (λ h next after e a x. tt)

  pub transition_then-Allows :
      (phase : AgentRunPhase) (message : Message) (update : AgentRunStatus → AgentRunStatus)
      (q : Requeue)
      → is_terminal run.status.phase ≡ false
      → ((s : AgentRunStatus) → (update s).phase ≡ s.phase)
      → Allows (transition_run env run phase message update >>= λ _. pure q)
  transition_then-Allows phase message update q live keeps =
      Allows-bind _ _ (transition-Allows run phase message update live keeps) λ _. Allows-pure q

  pub delete_if_owned-Allows : (r : GetReply Pod) → Allows (delete_if_owned env run r)
  delete_if_owned-Allows get_failed = Ensures-raise IsAllowed _ _
  delete_if_owned-Allows not_found = Allows-pure tt
  delete_if_owned-Allows (found pod) = elim (Bool-cases (env.is_controlled_by_run pod.meta run)) [
    | inl b ↦ rw b (remove_pod-Allows pod b)
    | inr b ↦ rw b (Allows-pure tt)
  ]

  pub delete_budget_exceeded_pod-Allows : Allows (delete_budget_exceeded_pod env run)
  unfolding delete_budget_exceeded_pod
  delete_budget_exceeded_pod-Allows =
      Ensures-if IsAllowed _ (not env.has_api_reader) _ _ (λ b. Ensures-raise IsAllowed _ _)
        (λ b. Allows-bind _ _ (Ensures-get_live_pod IsAllowed env _ _) delete_if_owned-Allows)

  pub ended-Allows : (phase : AgentRunPhase) → Allows (ended env run phase)
  ended-Allows budget_exceeded =
      Allows-bind _ _ delete_budget_exceeded_pod-Allows λ _. Allows-pure _
  ended-Allows unset = Allows-pure _
  ended-Allows pending = Allows-pure _
  ended-Allows running = Allows-pure _
  ended-Allows succeeded = Allows-pure _
  ended-Allows failed = Allows-pure _

  pub fail_pod_name_collision-Allows :
      (pod : Pod)
      → is_terminal run.status.phase ≡ false
      → Allows (fail_pod_name_collision env run pod)
  unfolding fail_pod_name_collision
  fail_pod_name_collision-Allows pod live =
      transition_then-Allows failed _ (cleared pod.name) _ live (λ s. refl)

  pub remove_existing-Allows :
      (o : Option Pod)
      → ((pod : Pod) → o ≡ some pod → env.is_controlled_by_run pod.meta run ≡ true)
      → Allows (remove_existing env o)
  remove_existing-Allows none owned = Allows-pure tt
  remove_existing-Allows (some pod) owned = remove_pod-Allows pod (owned pod refl)

  pub existing_name-keeps :
      (o : Option Pod) (s : AgentRunStatus) → (existing_name env o s).phase ≡ s.phase
  existing_name-keeps none s = refl
  existing_name-keeps (some pod) s = refl

  pub fail_invalid_wallclock-Allows :
      (o : Option Pod) (cause : Message)
      → is_terminal run.status.phase ≡ false
      → ((pod : Pod) → o ≡ some pod → env.is_controlled_by_run pod.meta run ≡ true)
      → Allows (fail_invalid_wallclock env run o cause)
  unfolding fail_invalid_wallclock
  fail_invalid_wallclock-Allows o cause live owned =
      Allows-bind _ _ (remove_existing-Allows o owned)
        λ _. transition_then-Allows failed _ (existing_name env o) _ live (existing_name-keeps o)

  pub parts-named :
      (name : Text) (b : Built Parts) (pod : Pod)
      → with_parts run name b ≡ built pod
      → (pod.name ≡ name) × (pod.namespace ≡ run.namespace)
  unfolding pod_of
  parts-named name (invalid m) pod h = absurd (cc h)
  parts-named name (built parts) pod h =
      let same : pod_of run name parts ≡ pod = ground arith in
      (ap (λ (p : Pod). p.name) (sym same), ap (λ (p : Pod). p.namespace) (sym same))

  pub build_pod-named :
      (config : Config) (pod : Pod)
      → build_pod_with_config env.hash8 env.show_float run config ≡ built pod
      → (pod.name ≡ pod_name_for_run env.hash8 run.name) × (pod.namespace ≡ run.namespace)
  unfolding build_pod_with_config
  build_pod-named config pod h =
      let (e, _, h1) = built-bind (build_env env.show_float run) _ pod h in
      parts-named (pod_name_for_run env.hash8 run.name) _ pod h1

  pub create_built-Allows :
      (name : Text) (b : Built Pod) (config : Config)
      → is_terminal run.status.phase ≡ false
      → run.status.pod_name ≡ []
      → build_pod_with_config env.hash8 env.show_float run config ≡ b
      → Allows (create_built env run name b)
  create_built-Allows name (invalid m) config live unrecorded e =
      transition_then-Allows failed _ as_is _ live (λ s. refl)
  create_built-Allows name (built pod) config live unrecorded e =
      owned_or_not (env.set_controller_reference run pod.meta)
    where
      fresh : MayCreate pod
      fresh =
          let (n, ns) = build_pod-named config pod e in
          record { active = live; unrecorded = unrecorded; name = n; namespace = ns }

      created_or_not : (r : CreateReply) → Allows (after_create env run name r)
      created_or_not create_failed = Ensures-raise IsAllowed _ _
      created_or_not CreateReply.created =
          transition_then-Allows pending _ (with_pod_name name) _ live (λ s. refl)
      created_or_not CreateReply.already_exists =
          transition_then-Allows pending _ (with_pod_name name) _ live (λ s. refl)

      owned_or_not : (o : Option OwnerReference) → Allows (create_owned env run name pod o)
      owned_or_not none = Ensures-raise IsAllowed _ _
      owned_or_not (some ref) =
          Allows-bind _ _
            (Ensures-create_pod IsAllowed env (owned_pod env pod ref) (λ r. record {
              active = live;
              unrecorded = unrecorded;
              name = fresh.name;
              namespace = fresh.namespace;
            }))
            created_or_not

  pub credential_secret-Allows :
      (d : Option RuntimeDeliverySpec)
      → is_terminal run.status.phase ≡ false
      → run.status.pod_name ≡ []
      → Allows (credential_secret env run d)
  credential_secret-Allows none live unrecorded = Allows-pure []
  credential_secret-Allows (some d) live unrecorded =
      ensure_delivery_credential-Ensures IsAllowed env run (λ secret r. (live, unrecorded))

  pub reconcile_missing_pod-Allows :
      (name : Text)
      → is_terminal run.status.phase ≡ false
      → Allows (reconcile_missing_pod env run name)
  unfolding reconcile_missing_pod
  reconcile_missing_pod-Allows name live = elim (Bool-cases (run.status.pod_name == [])) [
    | inl b ↦
        let unrecorded = eq_of_beq run.status.pod_name [] b in
        rw b (
          Allows-bind _ _ (credential_secret-Allows run.spec.runtime.delivery live unrecorded)
            λ secret. create_built-Allows name _ _ live unrecorded refl)
    | inr b ↦ rw b (transition_then-Allows failed _ (with_pod_name name) _ live (λ s. refl))
  ]
