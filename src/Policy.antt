-- ===== src/Policy.antt =====
-- internal/runtimepolicy/provider.go: which credentials a model provider needs. The table of
-- providers is a map literal; strings.ToLower and strings.ToUpper are read on ASCII text.
pub mod Keyless
use kontext.Prelude.{
  ℕ, Bool, true, false, not, List, [], ◌∷◌, ◌++◌, map, Option, none, some, Text, text, ◌==◌, nat_eq,
  list_eq, map_get, trim_space, to_lower, to_upper, if◌then◌else◌,
}
use kontext.Api.{SecretRef}

pub record CredentialSpec : Type 0 where
  pub env_var_name : Text
  pub secret_key : Text

pub record ProviderDefinition : Type 0 where
  pub keyless : Bool
  pub default_secret_name : Text
  pub credentials : List CredentialSpec

abbrev default_provider : Text
default_provider = text "anthropic"

abbrev same : Text → CredentialSpec
same name = record { env_var_name = name; secret_key = name }

abbrev keyed : Text → List CredentialSpec → ProviderDefinition
keyed secret cs = record { keyless = false; default_secret_name = secret; credentials = cs }

abbrev without_key : ProviderDefinition
without_key = record { keyless = true; default_secret_name = []; credentials = [] }

pub provider_definitions : List (Text × ProviderDefinition)
provider_definitions =
    (text "anthropic", keyed (text "kontext-anthropic") (same (text "ANTHROPIC_API_KEY") ∷ []))
    ∷ (text "openai", keyed (text "kontext-openai") (same (text "OPENAI_API_KEY") ∷ []))
    ∷ (text "openai-compatible", keyed (text "kontext-openai") (same (text "OPENAI_API_KEY") ∷ []))
    ∷ (text "google", keyed (text "kontext-google") (same (text "GOOGLE_API_KEY") ∷ []))
    ∷ (text "gemini", keyed (text "kontext-google") (same (text "GOOGLE_API_KEY") ∷ []))
    ∷ (
      text "azure",
      keyed (text "kontext-azure-openai")
          (same (text "AZURE_OPENAI_API_KEY") ∷ same (text "AZURE_OPENAI_ENDPOINT") ∷ []),
    )
    ∷ (
      text "azure-openai",
      keyed (text "kontext-azure-openai")
          (same (text "AZURE_OPENAI_API_KEY") ∷ same (text "AZURE_OPENAI_ENDPOINT") ∷ []),
    )
    ∷ (text "mistral", keyed (text "kontext-mistral") (same (text "MISTRAL_API_KEY") ∷ []))
    ∷ (text "groq", keyed (text "kontext-groq") (same (text "GROQ_API_KEY") ∷ []))
    ∷ (text "cohere", keyed (text "kontext-cohere") (same (text "COHERE_API_KEY") ∷ []))
    ∷ (
      text "bedrock",
      keyed (text "kontext-bedrock")
          (same (text "AWS_ACCESS_KEY_ID") ∷ same (text "AWS_SECRET_ACCESS_KEY") ∷ []),
    )
    ∷ (text "fake", without_key)
    ∷ (text "replay", without_key)
    ∷ (text "echo", without_key)
    ∷ (text "deterministic", without_key)
    ∷ []

or_default : Text → Text
or_default p = if p == [] then default_provider else p

pub normalize_provider : Text → Text
unfolding or_default
normalize_provider provider = or_default (to_lower (trim_space provider))

pub find_definition : Text → Option ProviderDefinition
find_definition provider = map_get (normalize_provider provider) provider_definitions

pub needs_api_key : Text → Bool
needs_api_key provider = elim (find_definition provider) [ none ↦ true | some d ↦ not d.keyless ]

abbrev underscore : ℕ → ℕ
underscore c = if c == b'-' then b'_' else c

abbrev env_name : Text → Text
env_name normalized = to_upper (map underscore normalized) ++ text "_API_KEY"

pub credentials : Text → List CredentialSpec
credentials provider = elim (find_definition provider) [
  | none ↦ same (env_name (normalize_provider provider)) ∷ []
  | some d ↦ if d.keyless then [] else d.credentials
]

abbrev named : Option SecretRef → Text
named none = []
named (some r) = r.name

pub secret_name : Text → Option SecretRef → Text
secret_name provider secret_ref =
    if not (named secret_ref == []) then named secret_ref else elim (find_definition provider) [
      | none ↦ text "kontext-" ++ normalize_provider provider
      | some d ↦ d.default_secret_name
    ]
