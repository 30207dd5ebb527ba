-- ===== src/RunFactory/Resolve/Validity.antt =====
-- What an answer of ValidateTask (internal/runfactory/runfactory.go) means.
use kontext.Prelude.{
  ◌≡◌, ◌≢◌, ◌↔◌, refl, sym, ap, ◌∙◌, inl, inr, ◌⊎◌, true, ◌||◌, List, [], ◌∷◌, Option, none, some,
  Text, arith, ◌==◌, nat_eq, list_eq, bool_eq, is_some, Bool-cases, map_get, map_set, keys,
  beq_refl, eq_of_beq,
}
use mathlib.Core.Path.{subst}
use kontext.Api.{AgentMode, task, service, scheduled, AgentSpec, Agent}
use kontext.RunFactory.Errors.{
  ResolutionError, ResolutionErrorCode, missing_parameters, ok, err, Result-cases,
}
use kontext.RunFactory.Goal.{Parameters, interpolate_goal, resolve_task_goal, given}
use kontext.RunFactory.Goal.Template.{
  Token, literal, escape, hole, meaning, Bound, mentions, AllUsed,
}
use kontext.RunFactory.Goal.Meaning.{interpolate_goal_iff, interpolate_goal-missing}
use kontext.RunFactory.Goal.Invalid.{interpolate_goal-invalid}
use kontext.RunFactory.Resolve.{forgive, task_only, validate_task}

-- Parameters for every placeholder, and no others.
fill : List Token → Parameters
fill [] = []
fill (hole n ∷ ts) = map_set n [] (fill ts)
fill (k ∷ ts) = fill ts

is_some-map_set :
    (j k v : Text) (m : Parameters)
    → is_some (map_get j (map_set k v m)) ≡ (k == j || is_some (map_get j m))
unfolding map_get map_set
is_some-map_set j k v [] = ground arith
is_some-map_set j k v ((i, w) ∷ m) = elim (Bool-cases (i == k)) [
  | inl e ↦ rw e (let q : i ≡ k = eq_of_beq i k e in rw q (ground arith))
  | inr e ↦ rw e (ground (arith, is_some-map_set j k v m))
]

Bound-map_set :
    (k v : Text) (m : Parameters) (ts : List Token) → Bound m ts → Bound (map_set k v m) ts
Bound-map_set k v m [] b = tt
Bound-map_set k v m (hole n ∷ ts) (b, bs) =
    (ground (arith, is_some-map_set n k v m), Bound-map_set k v m ts bs)
Bound-map_set k v m (literal c ∷ ts) (b, bs) = (refl, Bound-map_set k v m ts bs)
Bound-map_set k v m (escape n ∷ ts) (b, bs) = (refl, Bound-map_set k v m ts bs)

Bound-fill : (ts : List Token) → Bound (fill ts) ts
unfolding fill
Bound-fill [] = tt
Bound-fill (hole n ∷ ts) = (
  is_some-map_set n n [] (fill ts) ∙ ap (λ x. x || is_some (map_get n (fill ts))) (beq_refl n),
  Bound-map_set n [] (fill ts) ts (Bound-fill ts),
)
Bound-fill (literal c ∷ ts) = (refl, Bound-fill ts)
Bound-fill (escape n ∷ ts) = (refl, Bound-fill ts)

AllUsed-cons : (ks : List Text) (k : Token) (ts : List Token) → AllUsed ks ts → AllUsed ks (k ∷ ts)
unfolding mentions
AllUsed-cons [] k ts h = tt
AllUsed-cons (n ∷ ks) k ts (h, hs) = (ground arith, AllUsed-cons ks k ts hs)

AllUsed-map_set :
    (n v : Text) (m : Parameters) (ts : List Token)
    → mentions n ts ≡ true
    → AllUsed (keys m) ts
    → AllUsed (keys (map_set n v m)) ts
unfolding map_set
AllUsed-map_set n v [] ts h a = (h, tt)
AllUsed-map_set n v ((j, w) ∷ m) ts h (a, as') = elim (Bool-cases (j == n)) [
  | inl e ↦ rw e (h, as')
  | inr e ↦ rw e (a, AllUsed-map_set n v m ts h as')
]

AllUsed-fill : (ts : List Token) → AllUsed (keys (fill ts)) ts
unfolding fill
AllUsed-fill [] = tt
AllUsed-fill (hole n ∷ ts) =
    AllUsed-map_set n [] (fill ts) (hole n ∷ ts)
      (unfold mentions in ap (λ x. x || mentions n ts) (beq_refl n))
      (AllUsed-cons (keys (fill ts)) (hole n) ts (AllUsed-fill ts))
AllUsed-fill (literal c ∷ ts) = AllUsed-cons (keys (fill ts)) (literal c) ts (AllUsed-fill ts)
AllUsed-fill (escape n ∷ ts) = AllUsed-cons (keys (fill ts)) (escape n) ts (AllUsed-fill ts)

abbrev Renders : Text → Type 0
Renders t = (ps : Parameters) × (g : Text) × (interpolate_goal t ps ≡ ok g)

forgiven : (e : ResolutionError) → forgive (err e) ≡ none → e.code ≡ missing_parameters
forgiven e h = ground arith

missing-Renders :
    (t : Text) (e : ResolutionError)
    → interpolate_goal t [] ≡ err e
    → e.code ≡ missing_parameters
    → Renders t
missing-Renders t e q c =
    let (ts, w, p) = interpolate_goal-missing t [] e q c in
    (
      fill ts,
      meaning (fill ts) ts,
      (interpolate_goal_iff t (fill ts) (meaning (fill ts) ts)).1 (
        ts,
        record { readable = w; printed = p; bound = Bound-fill ts; all_used = AllUsed-fill ts },
        refl,
      ),
    )

template-valid : (t : Text) → forgive (interpolate_goal t []) ≡ none → Renders t
template-valid t h = elim (Result-cases (interpolate_goal t [])) [
  | inr (g, q) ↦ ([], g, q)
  | inl (e, q) ↦ missing-Renders t e q (forgiven e (rw q at h))
]

missing_cases : (c : ResolutionErrorCode) → (c ≡ missing_parameters) ⊎ (c ≢ missing_parameters)
missing_cases missing_parameters = inl refl
missing_cases _ = inr (λ h. ground arith)

template-invalid : (t : Text) → Renders t → forgive (interpolate_goal t []) ≡ none
template-invalid t (ps, g, r) = elim (Result-cases (interpolate_goal t [])) [
  | inr (h, q) ↦ rw q
  | inl (e, q) ↦ elim (missing_cases e.code) [
    | inl c ↦ rw q (ground arith)
    | inr c ↦ absurd (cc ((interpolate_goal-invalid t e q c).1 ps, r))
  ]
]

-- Some parameters, or none at all, give the Agent's task a goal.
abbrev pub Resolvable : AgentSpec → Type 0
Resolvable spec = (ps : Option Parameters) × (g : Text) × (resolve_task_goal spec ps ≡ ok g)

valid-Resolvable :
    (spec : AgentSpec) → forgive (resolve_task_goal spec none) ≡ none → Resolvable spec
unfolding resolve_task_goal
valid-Resolvable spec h = elim (Bool-cases (spec.goal == [])) [
  | inl e ↦ elim (Bool-cases (spec.goal_template == [])) [
    | inl q ↦ absurd (ground arith)
    | inr q ↦
        let (ps, g, r) = template-valid spec.goal_template (rw (e, q) at h) in
        (some ps, g, rw (e, q) r)
  ]
  | inr e ↦ elim (Bool-cases (spec.goal_template == [])) [
    | inl q ↦ (none, spec.goal, rw (e, q))
    | inr q ↦ absurd (ground arith)
  ]
]

Resolvable-valid :
    (spec : AgentSpec) → Resolvable spec → forgive (resolve_task_goal spec none) ≡ none
unfolding resolve_task_goal
Resolvable-valid spec (ps, g, r) = elim (Bool-cases (spec.goal == [])) [
  | inl e ↦ elim (Bool-cases (spec.goal_template == [])) [
    | inl q ↦ absurd (ground arith)
    | inr q ↦ rw (e, q) (template-invalid spec.goal_template (given ps, g, rw (e, q) at r))
  ]
  | inr e ↦ elim (Bool-cases (spec.goal_template == [])) [
    | inl q ↦ rw (e, q)
    | inr q ↦ absurd (ground arith)
  ]
]

-- ValidateTask accepts an Agent exactly if it is a Task Agent and some invocation parameters, or
-- none, resolve to a goal.
pub validate_task_iff :
    (agent : Agent)
    → (validate_task (some agent) ≡ none) ↔ ((agent.spec.mode ≡ task) × Resolvable agent.spec)
unfolding validate_task
validate_task_iff agent = (sound agent.spec.mode refl, complete)
  where
    sound :
        (m : AgentMode)
        → agent.spec.mode ≡ m
        → task_only m agent ≡ none
        → (agent.spec.mode ≡ task) × Resolvable agent.spec
    sound task e h = (e, valid-Resolvable agent.spec h)
    sound service e h = absurd (ground arith)
    sound scheduled e h = absurd (ground arith)
    sound (AgentMode.other t) e h = absurd (ground arith)

    complete : (agent.spec.mode ≡ task) × Resolvable agent.spec → validate_task (some agent) ≡ none
    complete (e, r) = subst (λ m. task_only m agent ≡ none) (sym e) (Resolvable-valid agent.spec r)
