-- ===== src/Policy/Keyless.antt =====
-- The provider table of internal/runtimepolicy/provider.go and what its three readers say of a
-- provider.
use kontext.Prelude.{
  ◌≡◌, Bool, true, false, not, List, [], ◌∷◌, none, some, Text, arith, ◌==◌, nat_eq, list_eq,
  map_get, Bool-cases, Option-cases, inl, inr, list_beq,
}
use kontext.Policy.{
  ProviderDefinition, provider_definitions, find_definition, needs_api_key, credentials,
  secret_name, normalize_provider,
}

abbrev pub is_empty {ℓ} : {A : Type ℓ} → List A → Bool
is_empty [] = true
is_empty (_ ∷ _) = false

-- A row of the table: without a key there is nothing to inject, with one there is a secret.
abbrev IsConsistent : ProviderDefinition → Type 0
IsConsistent d = (d.keyless ≡ is_empty d.credentials) × (d.keyless ≡ is_empty d.default_secret_name)

abbrev AllConsistent : List (Text × ProviderDefinition) → Type 0
AllConsistent [] = Unit
AllConsistent ((_, d) ∷ ds) = IsConsistent d × AllConsistent ds

table_consistent : AllConsistent provider_definitions
unfolding provider_definitions
table_consistent = ground arith

found-IsConsistent :
    (k : Text) (ds : List (Text × ProviderDefinition)) (d : ProviderDefinition)
    → AllConsistent ds
    → map_get k ds ≡ some d
    → IsConsistent d
unfolding map_get
found-IsConsistent k [] d h e = cc
found-IsConsistent k ((j, c) ∷ ds) d (h, hs) e = elim (Bool-cases (j == k)) [
  | inl p ↦ let q : some c ≡ some d = rw p at e in ground arith
  | inr p ↦ found-IsConsistent k ds d hs (rw p at e)
]

found_definition :
    (provider : Text) (d : ProviderDefinition) → find_definition provider ≡ some d → IsConsistent d
unfolding find_definition
found_definition provider d e =
    found-IsConsistent (normalize_provider provider) provider_definitions d table_consistent e

-- A provider needs an API key exactly when the Pod gets credentials for it, and exactly when its
-- secret, where the run names none, has a name.
pub needs_api_key-credentials :
    (provider : Text)
    → (needs_api_key provider ≡ not (is_empty (credentials provider)))
      × (needs_api_key provider ≡ not (is_empty (secret_name provider none)))
unfolding needs_api_key credentials secret_name list_beq
needs_api_key-credentials provider = elim (Option-cases (find_definition provider)) [
  | inl e ↦ ground arith
  | inr (d, e) ↦ ground (arith, found_definition provider d e)
]
