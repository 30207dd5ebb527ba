-- ===== src/PodBuilder/Env.antt =====
-- internal/podbuilder/podbuilder.go: buildEnv. Printing a float64 is a parameter.
use kontext.Prelude.{
  ℕ, ◌≡◌, refl, not, List, [], ◌∷◌, ◌++◌, map, Option, none, some, Text, text, ◌==◌, nat_eq,
  list_eq, ℤ, show_int, join, text_mem, if◌then◌else◌,
}
use kontext.Api.{
  BudgetSpec, SecretKeySelector, EnvVar, EnvVarSource, AgentRef, AgentRun, Message, sprintf,
}
use kontext.Policy.{CredentialSpec, normalize_provider, credentials, needs_api_key, secret_name}
use kontext.PodBuilder.Core.{PodEnvVar}

-- What a builder returns: a value or an error.
pub data Built (A : Type 0) : Type 0 where
  built : A → Built A
  invalid : Message → Built A

infixl 5 ◌>>=◌
abbrev pub ◌>>=◌ : {A B : Type 0} → Built A → (A → Built B) → Built B
built a >>= f = f a
invalid m >>= f = invalid m

pub built-bind :
    {A B : Type 0} (m : Built A) (f : A → Built B) (b : B)
    → (m >>= f) ≡ built b
    → (a : A) × (m ≡ built a) × (f a ≡ built b)
built-bind (built a) f b h = (a, refl, h)
built-bind (invalid e) f b h = absurd (cc h)

-- pkg/delivery/v1alpha1.
abbrev pub token_env_name : Text
token_env_name = text "KONTEXT_DELIVERY_TOKEN"

abbrev pub token_secret_key : Text
token_secret_key = text "token"

abbrev pub or_no_texts : Option (List Text) → List Text
or_no_texts none = []
or_no_texts (some ts) = ts

abbrev ref_name : Option AgentRef → Text
ref_name none = []
ref_name (some r) = r.name

unfoldable pub agent_name : AgentRun → Text
agent_name run =
    let name = ref_name run.spec.agent_ref in if not (name == []) then name else run.name

abbrev text_of_int : Option ℤ → Text
text_of_int none = []
text_of_int (some n) = show_int n

unfoldable pub budget_tokens : Option BudgetSpec → Text
budget_tokens none = []
budget_tokens (some b) = text_of_int b.tokens

unfoldable pub budget_wallclock : Option BudgetSpec → Text
budget_wallclock none = []
budget_wallclock (some b) = b.wallclock

abbrev pub literal : Text → Text → PodEnvVar
literal name value = record { name = name; value = value; value_from = none }

abbrev pub from_secret : Text → Text → Text → PodEnvVar
from_secret name secret key = record {
  name = name;
  value = [];
  value_from = some (record { name = secret; key = key });
}

abbrev value_or_empty : Option Text → Text
value_or_empty none = []
value_or_empty (some t) = t

abbrev selector : Option EnvVarSource → Option SecretKeySelector
selector none = none
selector (some s) = some s.secret_key_ref

abbrev pub pod_env_var : EnvVar → PodEnvVar
pod_env_var v = record {
  name = v.name;
  value = value_or_empty v.value;
  value_from = selector v.value_from;
}

abbrev override_error : Text → Message
override_error name =
    sprintf (text "spec.env cannot override controller-managed variable %q") (name ∷ [])

-- The loop over spec.env, with the reserved names.
unfoldable pub extra_env : List Text → List EnvVar → Built (List PodEnvVar)
extra_env reserved [] = built []
extra_env reserved (v ∷ vs) =
    let rest = extra_env reserved vs in
    if text_mem v.name reserved
    then invalid (override_error v.name)
    else rest >>= λ more. built (pod_env_var v ∷ more)

abbrev pub or_no_vars : Option (List EnvVar) → List EnvVar
or_no_vars none = []
or_no_vars (some vs) = vs

abbrev pub env_var_names : List CredentialSpec → List Text
env_var_names = map λ (c : CredentialSpec). c.env_var_name

unfoldable pub credential_env : Text → List CredentialSpec → List PodEnvVar
credential_env secret [] = []
credential_env secret (c ∷ cs) =
    from_secret c.env_var_name secret c.secret_key ∷ credential_env secret cs

abbrev pub pod_env_names : List PodEnvVar → List Text
pod_env_names [] = []
pod_env_names (v ∷ vs) = v.name ∷ pod_env_names vs

-- `reserved`: the controller's own variables, the provider's credentials and the delivery token.
abbrev pub reserved_names : List PodEnvVar → Text → List Text
reserved_names base provider =
    pod_env_names base ++ env_var_names (credentials provider) ++ token_env_name ∷ []

abbrev pub provider_env : AgentRun → List PodEnvVar
provider_env run =
    let provider = normalize_provider run.spec.provider in
    if needs_api_key provider
    then credential_env (secret_name provider run.spec.secret_ref) (credentials provider)
    else []

module _ (show_float : ℕ → Text) where
  abbrev text_of_float : Option ℕ → Text
  text_of_float none = []
  text_of_float (some bits) = show_float bits

  unfoldable pub budget_dollars : Option BudgetSpec → Text
  budget_dollars none = []
  budget_dollars (some b) = text_of_float b.dollars

  unfoldable pub base_env : AgentRun → List PodEnvVar
  base_env run =
      literal (text "KONTEXT_RUN_NAME") run.name
      ∷ literal (text "KONTEXT_AGENT_NAME") (agent_name run)
      ∷ literal (text "KONTEXT_GOAL") run.spec.goal
      ∷ literal (text "KONTEXT_PROVIDER") (normalize_provider run.spec.provider)
      ∷ literal (text "KONTEXT_MODEL") run.spec.model
      ∷ literal (text "KONTEXT_TOOLS") (join (text ",") (or_no_texts run.spec.tools))
      ∷ literal (text "KONTEXT_BUDGET_TOKENS") (budget_tokens run.spec.budget)
      ∷ literal (text "KONTEXT_BUDGET_WALLCLOCK") (budget_wallclock run.spec.budget)
      ∷ literal (text "KONTEXT_BUDGET_DOLLARS") (budget_dollars run.spec.budget)
      ∷ []

  unfoldable pub build_env : AgentRun → Built (List PodEnvVar)
  build_env run =
      let base = base_env run in
      let reserved = reserved_names base (normalize_provider run.spec.provider) in
      extra_env reserved (or_no_vars run.spec.env) >>= λ extra.
      built (base ++ extra ++ provider_env run)
