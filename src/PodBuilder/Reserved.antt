-- ===== src/PodBuilder/Reserved.antt =====
-- Which variables of a run's spec reach the environment of its container.
use kontext.Prelude.{
  ℕ, ◌≡◌, ◌↔◌, refl, sym, ◌∙◌, ap, inl, inr, Bool, false, ◌||◌, text, list_eq, nat_eq, ◌==◌, List,
  [], ◌∷◌, ◌++◌, map, Text, text_mem, Bool-cases, arith,
}
use kontext.Api.{EnvVar, AgentRun}
use kontext.Policy.{CredentialSpec, credentials, normalize_provider}
use kontext.PodBuilder.Core.{PodEnvVar}
use kontext.PodBuilder.Env.{
  built, built-bind, pod_env_var, extra_env, or_no_vars, reserved_names, pod_env_names,
  env_var_names, token_env_name, base_env, provider_env, build_env,
}

-- No variable has a reserved name.
abbrev pub NoneReserved : List Text → List EnvVar → Type 0
NoneReserved reserved [] = Unit
NoneReserved reserved (v ∷ vs) = (text_mem v.name reserved ≡ false) × NoneReserved reserved vs

extra_env-built :
    (reserved : List Text) (vs : List EnvVar) (env : List PodEnvVar)
    → extra_env reserved vs ≡ built env
    → NoneReserved reserved vs × (env ≡ map pod_env_var vs)
unfolding extra_env
extra_env-built reserved [] env h = (tt, ground arith)
extra_env-built reserved (v ∷ vs) env h = elim (Bool-cases (text_mem v.name reserved)) [
  | inl b ↦ absurd (cc (rw b at h))
  | inr b ↦
      let (more, em, e) = built-bind (extra_env reserved vs) _ env (rw b at h) in
      let (none_reserved, shape) = extra_env-built reserved vs more em in
      let same : pod_env_var v ∷ more ≡ env = ground arith in
      ((b, none_reserved), sym same ∙ ap (λ t. pod_env_var v ∷ t) shape)
]

extra_env_complete :
    (reserved : List Text) (vs : List EnvVar)
    → NoneReserved reserved vs
    → extra_env reserved vs ≡ built (map pod_env_var vs)
unfolding extra_env
extra_env_complete reserved [] h = refl
extra_env_complete reserved (v ∷ vs) h = rw (h.0, extra_env_complete reserved vs h.1) refl

-- The variables that the controller sets in every container.
abbrev pub controller_variables : List Text
controller_variables =
    text "KONTEXT_RUN_NAME"
    ∷ text "KONTEXT_AGENT_NAME"
    ∷ text "KONTEXT_GOAL"
    ∷ text "KONTEXT_PROVIDER"
    ∷ text "KONTEXT_MODEL"
    ∷ text "KONTEXT_TOOLS"
    ∷ text "KONTEXT_BUDGET_TOKENS"
    ∷ text "KONTEXT_BUDGET_WALLCLOCK"
    ∷ text "KONTEXT_BUDGET_DOLLARS"
    ∷ []

-- A name that is none of the controller's, of the provider's credentials or of the delivery token.
pub record IsFree (provider name : Text) : Type 0 where
  pub controller : text_mem name controller_variables ≡ false
  pub credential :
      text_mem name (map (λ (c : CredentialSpec). c.env_var_name) (credentials provider)) ≡ false
  pub token : (name == text "KONTEXT_DELIVERY_TOKEN") ≡ false

abbrev pub AllFree : Text → List EnvVar → Type 0
AllFree provider [] = Unit
AllFree provider (v ∷ vs) = IsFree provider v.name × AllFree provider vs

text_mem-append : (x : Text) (s t : List Text) → text_mem x (s ++ t) ≡ text_mem x s || text_mem x t
unfolding text_mem
text_mem-append x [] t = refl
text_mem-append x (y ∷ s) t = elim (Bool-cases (x == y)) [
  | inl b ↦ rw b refl
  | inr b ↦ rw b (text_mem-append x s t)
]

or_false : (a b : Bool) → a || b ≡ false → (a ≡ false) × (b ≡ false)
or_false a b h = ground arith

in_none :
    (x : Text) (a b : List Text) (t : Text)
    → text_mem x (a ++ b ++ t ∷ []) ≡ false
    → (text_mem x a ≡ false) × (text_mem x b ≡ false) × ((x == t) ≡ false)
unfolding text_mem
in_none x a b t h =
    let (front, last) =
      or_false (text_mem x (a ++ b)) _ (sym (text_mem-append x (a ++ b) (t ∷ [])) ∙ h) in
    let (ha, hb) = or_false (text_mem x a) _ (sym (text_mem-append x a b) ∙ front) in
    (ha, hb, (or_false (x == t) false last).0)

in_any :
    (x : Text) (a b : List Text) (t : Text)
    → text_mem x a ≡ false
    → text_mem x b ≡ false
    → (x == t) ≡ false
    → text_mem x (a ++ b ++ t ∷ []) ≡ false
unfolding text_mem
in_any x a b t ha hb ht =
    text_mem-append x (a ++ b) (t ∷ []) ∙ rw (text_mem-append x a b, ha, hb, ht) refl

module _ (show_float : ℕ → Text) (run : AgentRun) where
  abbrev provider : Text
  provider = normalize_provider run.spec.provider

  abbrev pub reserved : List Text
  reserved = reserved_names (base_env show_float run) provider

  controllers : pod_env_names (base_env show_float run) ≡ controller_variables
  unfolding base_env
  controllers = refl

  reserved-IsFree : (name : Text) → text_mem name reserved ≡ false → IsFree provider name
  reserved-IsFree name h =
      let (b, c, t) =
        in_none name (pod_env_names (base_env show_float run))
          (env_var_names (credentials provider)) token_env_name h in
      record {
        controller = ap (λ l. text_mem name l) (sym controllers) ∙ b;
        credential = c;
        token = t;
      }

  free-reserved : (name : Text) → IsFree provider name → text_mem name reserved ≡ false
  free-reserved name f =
      in_any name (pod_env_names (base_env show_float run)) (env_var_names (credentials provider))
        token_env_name (ap (λ l. text_mem name l) controllers ∙ f.controller) f.credential f.token

  AllFree-reserved : (vs : List EnvVar) → AllFree provider vs → NoneReserved reserved vs
  AllFree-reserved [] h = tt
  AllFree-reserved (v ∷ vs) h = (free-reserved v.name h.0, AllFree-reserved vs h.1)

  reserved-AllFree : (vs : List EnvVar) → NoneReserved reserved vs → AllFree provider vs
  reserved-AllFree [] h = tt
  reserved-AllFree (v ∷ vs) h = (reserved-IsFree v.name h.0, reserved-AllFree vs h.1)

  -- The environment of a container: the controller's variables, those of the spec, and the provider's
  -- credentials.
  pub record IsProtected (env : List PodEnvVar) : Type 0 where
    pub kept : AllFree (normalize_provider run.spec.provider) (or_no_vars run.spec.env)
    pub shape :
        env
        ≡ base_env show_float run ++ map pod_env_var (or_no_vars run.spec.env) ++ provider_env run

  -- The environment of a run is built exactly if none of the variables of its spec has the name of one of
  -- the controller's nine variables, KONTEXT_GOAL among them, of a credential of the run's provider, or
  -- KONTEXT_DELIVERY_TOKEN; and it then has the controller's variables, those of the spec and the provider's credentials, in
  -- this order.
  pub build_env_iff :
      (env : List PodEnvVar) → (build_env show_float run ≡ built env) ↔ IsProtected env
  unfolding build_env
  build_env_iff env = (
    λ h.
        let (extra, ex, e) = built-bind (extra_env reserved (or_no_vars run.spec.env)) _ env h in
        let (kept, shape) = extra_env-built reserved (or_no_vars run.spec.env) extra ex in
        let same : base_env show_float run ++ extra ++ provider_env run ≡ env = ground arith in
        record {
          kept = reserved-AllFree _ kept;
          shape = sym same ∙ ap (λ t. base_env show_float run ++ t ++ provider_env run) shape;
        },
    λ p.
        rw (extra_env_complete reserved (or_no_vars run.spec.env) (AllFree-reserved _ p.kept))
          (ap built (sym p.shape)),
  )
