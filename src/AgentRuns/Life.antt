-- ===== src/AgentRuns/Life.antt =====
-- The life of a run under its reconciler: the status in the server against the abstract life.
use kontext.Prelude.{◌≡◌, inl, inr, refl, sym, true, false, [], ◌∷◌, Option, none, some, Text}
use mathlib.Core.Path.{subst}
use kontext.Api.{AgentRunDeliverySpec, is_terminal, AgentRun, AgentRunStatus}
use kontext.Controller.Kube.{
  GetReply, found, not_found, get_failed, Event, RunCall, call, pure, raise, History, ◌>>=◌,
}
use kontext.AgentRuns.Cluster.{RunEnvironment, get_cached_run}
use kontext.AgentRuns.Calls.{Requested, Calls}
use kontext.AgentRuns.Transitions.{
  Advances, Advances-LifeStep, Faithful, IsConsistent, Life, LifeStep, life,
}
use kontext.AgentRuns.PodBacked.Safety.{IsAllowed}
use kontext.AgentRuns.PodBacked.Conforms.{reconcile_pod_backed-Allows}
use kontext.AgentRuns.Delivery.Conforms.{IsDelivery}
use kontext.AgentRuns.Delivery.Safety.{reconcile_delivery-Delivers}
use kontext.AgentRuns.PodBacked.Reconcile.{reconcile_pod_backed}
use kontext.AgentRuns.Delivery.Reconcile.{reconcile_delivery}
use kontext.AgentRuns.Reconcile.{by_delivery, read_run, reconcile}

-- What the cache has of a run is consistent.
pub record ReadsConsistent (env : RunEnvironment) : Type 0 where
  pub cached :
      (h : History) (ns name : Text) (run : AgentRun)
      → env.cached_run h ns name ≡ found run
      → IsConsistent run.status

-- A patch of a status advances it.
abbrev pub IsAdvance : RunCall → Type 0
IsAdvance (RunCall.patch_run base next r) = Advances base next
IsAdvance _ = Unit

allowed-IsAdvance :
    (env : RunEnvironment) (run : AgentRun) (c : RunCall) → IsAllowed env run c → IsAdvance c
allowed-IsAdvance env run (RunCall.patch_run base next r) a = a
allowed-IsAdvance env run (RunCall.create_pod pod r) a = tt
allowed-IsAdvance env run (RunCall.delete_pod pod r) a = tt
allowed-IsAdvance env run (RunCall.create_secret s r) a = tt
allowed-IsAdvance env run (RunCall.post q r) a = tt

delivery-IsAdvance :
    (env : RunEnvironment) (run : AgentRun) (c : RunCall) → IsDelivery env run c → IsAdvance c
delivery-IsAdvance env run (RunCall.patch_run base next r) a = a.0
delivery-IsAdvance env run (RunCall.create_pod pod r) a = tt
delivery-IsAdvance env run (RunCall.delete_pod pod r) a = tt
delivery-IsAdvance env run (RunCall.create_secret s r) a = tt
delivery-IsAdvance env run (RunCall.post q r) a = tt

Calls-map :
    (P R : RunCall → Type 0) → ((c : RunCall) → P c → R c) → (h : History) → Calls P h → Calls R h
unfolding Calls
Calls-map P R f [] k = tt
Calls-map P R f (call c ∷ h) k = (f c k.0, Calls-map P R f h k.1)
Calls-map P R f (Event.read_clock t ∷ h) k = Calls-map P R f h k
Calls-map P R f (Event.listed ns uid ∷ h) k = Calls-map P R f h k
Calls-map P R f (Event.create run r ∷ h) k = Calls-map P R f h k
Calls-map P R f (Event.get_live ns name ∷ h) k = Calls-map P R f h k
Calls-map P R f (Event.delete run r ∷ h) k = Calls-map P R f h k
Calls-map P R f (Event.patch_agent agent next ok ∷ h) k = Calls-map P R f h k
Calls-map P R f (Event.read_random ∷ h) k = Calls-map P R f h k
Calls-map P R f (Event.get_cached ns name ∷ h) k = Calls-map P R f h k

Calls-Requested :
    (P : RunCall → Type 0) (c : RunCall) (h : History) → Calls P h → Requested c h → P c
unfolding Calls Requested
Calls-Requested P c [] k m = absurd m
Calls-Requested P c (call d ∷ h) k (inl e) = subst P (sym e) k.0
Calls-Requested P c (call d ∷ h) k (inr m) = Calls-Requested P c h k.1 m
Calls-Requested P c (Event.read_clock t ∷ h) k m = Calls-Requested P c h k m
Calls-Requested P c (Event.listed ns uid ∷ h) k m = Calls-Requested P c h k m
Calls-Requested P c (Event.create run r ∷ h) k m = Calls-Requested P c h k m
Calls-Requested P c (Event.get_live ns name ∷ h) k m = Calls-Requested P c h k m
Calls-Requested P c (Event.delete run r ∷ h) k m = Calls-Requested P c h k m
Calls-Requested P c (Event.patch_agent agent next ok ∷ h) k m = Calls-Requested P c h k m
Calls-Requested P c (Event.read_random ∷ h) k m = Calls-Requested P c h k m
Calls-Requested P c (Event.get_cached ns name ∷ h) k m = Calls-Requested P c h k m

module _ (env : RunEnvironment) (faithful : Faithful env) where
  by_delivery-IsAdvance :
      (run : AgentRun) (d : Option AgentRunDeliverySpec) (ns name : Text)
      → IsConsistent run.status
      → Calls IsAdvance (by_delivery env run d (Event.get_cached ns name ∷ [])).1
  unfolding Calls
  by_delivery-IsAdvance run (some d) ns name c =
      Calls-map _ _ (delivery-IsAdvance env run)
        (reconcile_delivery env run (Event.get_cached ns name ∷ [])).1
        ((reconcile_delivery-Delivers env run faithful).calls (Event.get_cached ns name ∷ []) tt)
  by_delivery-IsAdvance run none ns name c =
      Calls-map _ _ (allowed-IsAdvance env run)
        (reconcile_pod_backed env run (Event.get_cached ns name ∷ [])).1
        ((reconcile_pod_backed-Allows env run faithful c).calls (Event.get_cached ns name ∷ []) tt)

  read_run-IsAdvance :
      (r : GetReply AgentRun) (ns name : Text)
      → ((run : AgentRun) → r ≡ found run → IsConsistent run.status)
      → Calls IsAdvance (read_run env r (Event.get_cached ns name ∷ [])).1
  unfolding Calls pure raise
  read_run-IsAdvance get_failed ns name c = tt
  read_run-IsAdvance not_found ns name c = tt
  read_run-IsAdvance (found run) ns name c =
      by_delivery-IsAdvance run run.spec.delivery ns name (c run refl)

  reconcile-IsAdvance :
      (ns name : Text) → ReadsConsistent env → Calls IsAdvance (reconcile env ns name []).1
  unfolding reconcile get_cached_run ◌>>=◌
  reconcile-IsAdvance ns name reads =
      read_run-IsAdvance (env.cached_run [] ns name) ns name (reads.cached [] ns name)

-- One change of a run's status in the server, in one of some environments: a reconciliation patches it
-- from the status that it has, and its patch takes effect.
pub data Patched {I : Type 0} (envs : I → RunEnvironment) (s t : AgentRunStatus) : Type 0 where
  patched :
      (i : I) (ns name : Text) (base : AgentRun) (r : Option AgentRun)
      → Requested (RunCall.patch_run base t r) (reconcile (envs i) ns name []).1
      → base.status ≡ s
      → Patched envs s t

-- Any number of such changes, by any number of reconciliations.
pub data Lives {I : Type 0} (envs : I → RunEnvironment) (s : AgentRunStatus)
    : AgentRunStatus → Type 0 where
  unchanged : Lives envs s s
  changed : {t u : AgentRunStatus} → Lives envs s t → Patched envs t u → Lives envs s u

-- The abstract life, any number of steps.
pub data LifePath (l : Life) : Life → Type 0 where
  here : LifePath l l
  next : {m n : Life} → LifePath l m → LifeStep m n → LifePath l n

module _ {I : Type 0} (envs : I → RunEnvironment) (faithful : (i : I) → Faithful (envs i))
    (reads : (i : I) → ReadsConsistent (envs i)) where
  Patched-advances :
      {s t : AgentRunStatus}
      → Patched envs s t
      → (is_terminal s.phase ≡ false) × LifeStep (life s) (life t)
  Patched-advances {s} {t} (patched i ns name base r m e) =
      let a =
        Calls-Requested IsAdvance _ _ (reconcile-IsAdvance (envs i) (faithful i) ns name (reads i))
          m in
      (
        subst (λ (x : AgentRunStatus). is_terminal x.phase ≡ false) e a.active,
        subst (λ x. LifeStep (life x) (life t)) e (Advances-LifeStep base t a),
      )

  Lives-LifePath : {s t : AgentRunStatus} → Lives envs s t → LifePath (life s) (life t)
  Lives-LifePath unchanged = here
  Lives-LifePath (changed l p) = next (Lives-LifePath l) (Patched-advances p).1

  Lives-ended : {s t : AgentRunStatus} → Lives envs s t → is_terminal s.phase ≡ true → t ≡ s
  Lives-ended unchanged h = refl
  Lives-ended {s} (changed l p) h =
      let same = Lives-ended l h in
      let live =
        subst (λ (x : AgentRunStatus). is_terminal x.phase ≡ false) same (Patched-advances p).0 in
      absurd (cc (h, live))

  -- However many reconciliations patch the status of a run, where each patches from the status that the
  -- run then has, no other client changes the run between a patch and its answer, and each run that the
  -- cache gives has a completion time exactly if its phase is terminal: the status follows the abstract
  -- life, in which it is active until it ends once, in a terminal phase with a completion time, and the
  -- status of a run that has ended changes in no field. Nothing is said of a reconciliation that goes on
  -- with a run which another client has ended meanwhile.
  pub Lives-refines :
      {s t : AgentRunStatus}
      → Lives envs s t
      → LifePath (life s) (life t) × (is_terminal s.phase ≡ true → t ≡ s)
  Lives-refines l = (Lives-LifePath l, Lives-ended l)
