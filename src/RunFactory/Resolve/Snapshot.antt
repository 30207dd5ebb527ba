-- ===== src/RunFactory/Resolve/Snapshot.antt =====
-- What ResolveInvocation puts into the run that it resolves.
use kontext.Prelude.{
  ◌≡◌, refl, sym, ap, inl, inr, ◌⊎◌, true, List, [], ◌∷◌, Option, some, Text, arith, ◌==◌, nat_eq,
  list_eq, beq_refl, Bool-cases, Option-cases, map_get, map_set,
}
use mathlib.Core.Path.{subst}
use kontext.Api.{Agent, AgentRun, AgentRunDeliverySpec, OwnerReference, ObjectMeta}
use kontext.Policy.{normalize_provider}
use kontext.RunFactory.Errors.{ok, Result-cases}
use kontext.RunFactory.Resolve.{
  SetControllerReference, label_agent_name, new_spec, new_for_agent, locked_invocation_fields,
  resolve_goal, add_labels, stamp, resolved, new_meta, owned, resolve_invocation, refers_to,
}

-- The run is the Agent's snapshot for the invocation: execution fields from the Agent, names and
-- parameters from the invocation, and the Agent its controller.
pub record Snapshot (set_ref : SetControllerReference) (agent : Agent) (invocation run : AgentRun)
    : Type 0 where
  pub nothing_locked : locked_invocation_fields invocation.spec ≡ []
  pub refers : refers_to invocation agent ≡ true
  pub name : run.name ≡ invocation.name
  pub namespace : run.namespace ≡ agent.namespace
  pub labelled : map_get label_agent_name run.meta.labels ≡ some agent.name
  pub annotated : run.annotations ≡ invocation.annotations
  pub controlled :
      (m : ObjectMeta) × (o : OwnerReference) × (set_ref agent m ≡ some o)
      × (run.meta.controller ≡ some o)
  pub agent_ref : run.spec.agent_ref ≡ some (record { name = agent.name })
  pub parameters : run.spec.parameters ≡ invocation.spec.parameters
  pub goal : resolve_goal agent.spec.mode agent invocation ≡ ok (run.spec.goal, run.spec.delivery)
  pub provider : run.spec.provider ≡ normalize_provider agent.spec.provider
  pub model : run.spec.model ≡ agent.spec.model
  pub tools : run.spec.tools ≡ agent.spec.tools
  pub budget : run.spec.budget ≡ agent.spec.budget
  pub secret_ref : run.spec.secret_ref ≡ agent.spec.secret_ref
  pub knowledge : run.spec.knowledge_config_map_ref ≡ agent.spec.knowledge_config_map_ref
  pub service_account : run.spec.service_account_name ≡ agent.spec.service_account_name
  pub runtime : run.spec.runtime ≡ agent.spec.runtime
  pub env : run.spec.env ≡ agent.spec.env

List-cases {ℓ} : {A : Type ℓ} (xs : List A) → (xs ≡ []) ⊎ ((y : A) × (ys : List A) × (xs ≡ y ∷ ys))
List-cases [] = inl refl
List-cases (y ∷ ys) = inr (y, ys, refl)

map_get-map_set :
    (k : Text) (v : Text) (m : List (Text × Text)) → map_get k (map_set k v m) ≡ some v
unfolding map_get map_set
map_get-map_set k v [] = rw (beq_refl k)
map_get-map_set k v ((j, w) ∷ m) = elim (Bool-cases (j == k)) [
  | inl e ↦ rw e (rw (beq_refl k))
  | inr e ↦ rw e (rw e (map_get-map_set k v m))
]

module _ (set_ref : SetControllerReference) (agent : Agent) (invocation : AgentRun) (g : Text)
    (d : Option AgentRunDeliverySpec) (l : locked_invocation_fields invocation.spec ≡ [])
    (r : refers_to invocation agent ≡ true)
    (e : resolve_goal agent.spec.mode agent invocation ≡ ok (g, d)) where
  owned-Snapshot :
      (o : OwnerReference)
      → set_ref agent (new_meta agent invocation.name) ≡ some o
      → Snapshot set_ref agent invocation
          (stamp agent invocation d (owned (new_meta agent invocation.name) (new_spec agent g) o))
  unfolding new_spec stamp
  owned-Snapshot o p = record {
    nothing_locked = l;
    refers = r;
    name = refl;
    namespace = refl;
    labelled =
        map_get-map_set label_agent_name agent.name
          (add_labels invocation.meta.labels ((label_agent_name, agent.name) ∷ []));
    annotated = refl;
    controlled = (new_meta agent invocation.name, o, p, refl);
    agent_ref = refl;
    parameters = refl;
    goal = e;
    provider = refl;
    model = refl;
    tools = refl;
    budget = refl;
    secret_ref = refl;
    knowledge = refl;
    service_account = refl;
    runtime = refl;
    env = refl;
  }

  stamp-Snapshot :
      (run : AgentRun)
      → new_for_agent set_ref agent invocation.name g ≡ some run
      → Snapshot set_ref agent invocation (stamp agent invocation d run)
  unfolding new_for_agent
  stamp-Snapshot run n = elim (Option-cases (set_ref agent (new_meta agent invocation.name))) [
    | inl p ↦ absurd (ground arith)
    | inr (o, p) ↦
        let same : owned (new_meta agent invocation.name) (new_spec agent g) o ≡ run =
          ground arith in
        subst (λ x. Snapshot set_ref agent invocation (stamp agent invocation d x)) same
          (owned-Snapshot o p)
  ]

-- Every run that ResolveInvocation resolves is the Agent's snapshot for the invocation: no locked
-- field was supplied, the reference fits, the name, annotations and parameters are the
-- invocation's, all other execution fields are the Agent's, the Agent is set as the controller and
-- in the label, and the goal and the delivery port are those of the Agent's mode.
pub resolve_invocation-Snapshot :
    (set_ref : SetControllerReference) (agent : Agent) (invocation run : AgentRun)
    → resolve_invocation set_ref (some agent) (some invocation) ≡ resolved run
    → Snapshot set_ref agent invocation run
unfolding resolve_invocation
resolve_invocation-Snapshot set_ref agent invocation run h =
    elim (Bool-cases (refers_to invocation agent)) [
      | inr r ↦ absurd (ground arith)
      | inl r ↦ elim (List-cases (locked_invocation_fields invocation.spec)) [
        | inr (f, fs, l) ↦ absurd (ground arith)
        | inl l ↦ elim (Result-cases (resolve_goal agent.spec.mode agent invocation)) [
          | inl (x, e) ↦ absurd (ground arith)
          | inr ((g, d), e) ↦ elim (Option-cases (new_for_agent set_ref agent invocation.name g)) [
            | inl n ↦ absurd (ground arith)
            | inr (b, n) ↦
                let same : stamp agent invocation d b ≡ run = ground arith in
                subst (Snapshot set_ref agent invocation) same
                  (stamp-Snapshot set_ref agent invocation g d l r e b n)
          ]
        ]
      ]
    ]

-- What newRunForAgent builds from an Agent.
pub new_for_agent-built :
    (set_ref : SetControllerReference) (agent : Agent) (name goal : Text) (run : AgentRun)
    → new_for_agent set_ref agent name goal ≡ some run
    → (run.name ≡ name) × (run.namespace ≡ agent.namespace) × (run.spec ≡ new_spec agent goal)
unfolding new_for_agent
new_for_agent-built set_ref agent name goal run h =
    elim (Option-cases (set_ref agent (new_meta agent name))) [
      | inl e ↦ absurd (ground arith)
      | inr (owner, e) ↦
          let same : owned (new_meta agent name) (new_spec agent goal) owner ≡ run = ground arith in
          (
            sym (ap (λ (r : AgentRun). r.name) same),
            sym (ap (λ (r : AgentRun). r.namespace) same),
            sym (ap (λ (r : AgentRun). r.spec) same),
          )
    ]
