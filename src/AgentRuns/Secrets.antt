-- ===== src/AgentRuns/Secrets.antt =====
-- What creating and loading a delivery credential asks for.
use kontext.Prelude.{
  ◌≡◌, refl, ap, inl, inr, true, false, not, ◌||◌, [], Option, none, some, Text, map_get, ◌==◌,
  nat_eq, list_eq, list_beq, Bool-cases, arith,
}
use kontext.PodBuilder.Env.{token_secret_key}
use kontext.Api.{OwnerReference, AgentRun}
use kontext.Controller.Kube.{
  CreateReply, created, already_exists, create_failed, GetReply, found, not_found, get_failed,
  Secret, RunCall, History,
}
use kontext.AgentRuns.Cluster.{RunEnvironment}
use kontext.AgentRuns.Calls.{
  Anything, Ensures, Ensures-bind, Ensures-create_secret, Ensures-get_live_secret, Ensures-if,
  Ensures-pure, Ensures-raise, Ensures-random_token,
}
use kontext.AgentRuns.Credential.{
  Loaded, credential, or_empty, loaded, delivery_credential_from_secret,
  delivery_credential_secret_name, name_if, after_conflict, after_create, checked, create_owned,
  ensure_delivery_credential, ensure_named, existing_or_new, load_delivery_credential, load_named,
  load_reply, new_secret,
}

module _ (env : RunEnvironment) (run : AgentRun) where
  -- A token that stands in the delivery Secret of the run, which the server gave and the run controls.
  pub record IsTokenOf (token : Text) : Type 0 where
    pub name : Text
    pub named : delivery_credential_secret_name env run ≡ some name
    pub read_at : History
    pub secret : Secret
    pub read : env.live_secret read_at run.namespace name ≡ found secret
    pub owned : env.is_controlled_by_run secret.meta run ≡ true
    pub token_entry : map_get token_secret_key secret.data_entries ≡ some token
    pub filled : (token == []) ≡ false

  abbrev pub IsLoaded : Loaded → Type 0
  IsLoaded (credential token) = IsTokenOf token
  IsLoaded _ = Unit

module _ (P : RunCall → Type 0) (env : RunEnvironment) (run : AgentRun) where
  module _ (p : (secret : Secret) (r : CreateReply) → P (RunCall.create_secret secret r)) where
    name_if-Ensures : (name : Text) (o : Option Text) → Ensures P (name_if name o) Anything
    name_if-Ensures name none = Ensures-raise P _ _
    name_if-Ensures name (some token) = Ensures-pure P _ _ tt

    checked-Ensures :
        (name : Text) (secret : Secret) → Ensures P (checked env run name secret) Anything
    checked-Ensures name secret = name_if-Ensures name _

    after_conflict-Ensures :
        (name : Text) (r : GetReply Secret) → Ensures P (after_conflict env run name r) Anything
    after_conflict-Ensures name (found secret) = checked-Ensures name secret
    after_conflict-Ensures name not_found = Ensures-raise P _ _
    after_conflict-Ensures name get_failed = Ensures-raise P _ _

    after_create-Ensures :
        (name : Text) (r : CreateReply) → Ensures P (after_create env run name r) Anything
    after_create-Ensures name created = Ensures-pure P _ _ tt
    after_create-Ensures name create_failed = Ensures-raise P _ _
    after_create-Ensures name already_exists =
        Ensures-bind P _ Anything _ _ (Ensures-get_live_secret P env _ _)
          λ r _. after_conflict-Ensures name r

    create_owned-Ensures :
        (name : Text) (secret : Secret) (o : Option OwnerReference)
        → Ensures P (create_owned env run name secret o) Anything
    create_owned-Ensures name secret none = Ensures-raise P _ _
    create_owned-Ensures name secret (some ref) =
        Ensures-bind P Anything Anything _ _ (Ensures-create_secret P env _ (λ r. p _ r))
          λ r _. after_create-Ensures name r

    existing_or_new-Ensures :
        (name : Text) (r : GetReply Secret) → Ensures P (existing_or_new env run name r) Anything
    existing_or_new-Ensures name (found secret) = checked-Ensures name secret
    existing_or_new-Ensures name get_failed = Ensures-raise P _ _
    existing_or_new-Ensures name not_found =
        Ensures-bind P Anything Anything _ _ (Ensures-random_token P env)
          λ token _. create_owned-Ensures name (new_secret env run name token) _

    ensure_named-Ensures : (o : Option Text) → Ensures P (ensure_named env run o) Anything
    ensure_named-Ensures none = Ensures-raise P _ _
    ensure_named-Ensures (some name) =
        Ensures-bind P _ Anything _ _ (Ensures-get_live_secret P env _ _)
          λ r _. existing_or_new-Ensures name r

    -- Ensuring the credential of a run creates Secrets and nothing else.
    pub ensure_delivery_credential-Ensures : Ensures P (ensure_delivery_credential env run) Anything
    unfolding ensure_delivery_credential
    ensure_delivery_credential-Ensures =
        Ensures-if P _ (not env.has_api_reader) _ _ (λ b. Ensures-raise P _ _)
          (λ b. ensure_named-Ensures _)

  present :
      (o : Option Text) (token : Text) → or_empty o ≡ token → (token == []) ≡ false → o ≡ some token
  unfolding list_beq
  present none token e f = absurd (cc (rw (← e) at f))
  present (some t) token e f = ap some e

  loaded-IsLoaded :
      (name : Text) (secret : Secret) (h : History)
      → delivery_credential_secret_name env run ≡ some name
      → env.live_secret h run.namespace name ≡ found secret
      → IsLoaded env run (loaded env (delivery_credential_from_secret env run secret))
  unfolding delivery_credential_from_secret
  loaded-IsLoaded name secret h named read =
      let token = or_empty (map_get token_secret_key secret.data_entries) in
      elim (Bool-cases (not (env.is_controlled_by_run secret.meta run) || token == [])) [
        | inl b ↦ rw b tt
        | inr b ↦
            let owned : env.is_controlled_by_run secret.meta run ≡ true = ground arith in
            let filled : (token == []) ≡ false = ground arith in
            rw b (record {
              name = name;
              named = named;
              read_at = h;
              secret = secret;
              read = read;
              owned = owned;
              token_entry = present _ token refl filled;
              filled = filled;
            })
      ]

  load_reply-Ensures :
      (name : Text) (r : GetReply Secret) (h : History)
      → delivery_credential_secret_name env run ≡ some name
      → env.live_secret h run.namespace name ≡ r
      → Ensures P (load_reply env run r) (IsLoaded env run)
  load_reply-Ensures name (found secret) h named read =
      Ensures-pure P _ _ (loaded-IsLoaded name secret h named read)
  load_reply-Ensures name not_found h named read = Ensures-pure P _ _ tt
  load_reply-Ensures name get_failed h named read = Ensures-pure P _ _ tt

  load_named-Ensures :
      (o : Option Text)
      → delivery_credential_secret_name env run ≡ o
      → Ensures P (load_named env run o) (IsLoaded env run)
  load_named-Ensures none named = Ensures-pure P _ _ tt
  load_named-Ensures (some name) named =
      Ensures-bind P _ _ _ _ (Ensures-get_live_secret P env _ _)
        λ r (h, read). load_reply-Ensures name r h named read

  -- Loading it only reads, and a credential is the token of the Secret.
  pub load_delivery_credential-Ensures :
      Ensures P (load_delivery_credential env run) (IsLoaded env run)
  unfolding load_delivery_credential
  load_delivery_credential-Ensures =
      Ensures-if P _ (not env.has_api_reader) _ _ (λ b. Ensures-pure P _ _ tt)
        (λ b. load_named-Ensures _ refl)
