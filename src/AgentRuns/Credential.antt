-- ===== src/AgentRuns/Credential.antt =====
-- internal/controller/agentrun_delivery_credential.go: the Secret that a Service's standing run shares
-- with its Pod. Reasons of errors are not kept.
use kontext.Prelude.{
  true, ◌||◌, not, [], ◌∷◌, ◌++◌, Option, none, some, Text, text, ◌==◌, nat_eq, list_eq, map_get,
  if◌then◌else◌,
}
use kontext.Api.{ObjectMeta, OwnerReference, AgentRun}
use kontext.PodBuilder.Env.{token_secret_key}
use kontext.PodBuilder.Build.{label_run_name}
use kontext.Controller.Kube.{
  CreateReply, created, already_exists, create_failed, GetReply, found, not_found, get_failed,
  Secret, no_uid, no_api_reader, api_error, reference_failed, bad_credential, Action, pure, raise,
  ◌>>=◌,
}
use kontext.AgentRuns.Cluster.{RunEnvironment, get_live_secret, random_token, create_secret}

abbrev pub or_empty : Option Text → Text
or_empty none = []
or_empty (some t) = t

-- With the controller reference that owning gives.
abbrev pub owned_meta : ObjectMeta → OwnerReference → ObjectMeta
owned_meta meta ref = record meta { controller = some ref }

-- What loading a credential comes to: a token, a Secret that is not there, or an error.
pub data Loaded : Type 0 where
  credential : Text → Loaded
  no_secret : Loaded
  invalid_credential : Loaded

abbrev pub name_if : Text → Option Text → Action Text
name_if name none = raise bad_credential
name_if name (some token) = pure name

module _ (env : RunEnvironment) where
  -- `none` is the error of a run without a UID.
  unfoldable pub delivery_credential_secret_name : AgentRun → Option Text
  delivery_credential_secret_name run =
      if run.uid == [] then none else some (text "delivery-auth-" ++ env.hash16 run.uid)

  -- `none` is an error.
  unfoldable pub delivery_credential_from_secret : AgentRun → Secret → Option Text
  delivery_credential_from_secret run secret =
      let token = or_empty (map_get token_secret_key secret.data_entries) in
      if not (env.is_controlled_by_run secret.meta run) || token == [] then none else some token

  unfoldable pub new_secret : AgentRun → Text → Text → Secret
  new_secret run name token = record {
    meta = record {
      name = name;
      namespace = run.namespace;
      uid = [];
      generation = 0;
      creation_timestamp = 0;
      labels = (label_run_name, run.name) ∷ [];
      annotations = [];
      finalizers = [];
      controller = none;
    };
    immutable = true;
    type = text "Opaque";
    data_entries = (token_secret_key, token) ∷ [];
  }

  -- The name of a Secret that is this run's.
  abbrev pub checked : AgentRun → Text → Secret → Action Text
  checked run name secret = name_if name (delivery_credential_from_secret run secret)

  abbrev pub after_conflict : AgentRun → Text → GetReply Secret → Action Text
  after_conflict run name (found secret) = checked run name secret
  after_conflict run name _ = raise api_error

  abbrev pub after_create : AgentRun → Text → CreateReply → Action Text
  after_create run name created = pure name
  after_create run name already_exists =
      get_live_secret env run.namespace name >>= after_conflict run name
  after_create run name create_failed = raise api_error

  abbrev pub create_owned : AgentRun → Text → Secret → Option OwnerReference → Action Text
  create_owned run name secret none = raise reference_failed
  create_owned run name secret (some ref) =
      create_secret env (record secret { meta = owned_meta secret.meta ref })
      >>= after_create run name

  abbrev pub create_credential : AgentRun → Text → Action Text
  create_credential run name = random_token env >>= λ token.
      let secret = new_secret run name token in
      create_owned run name secret (env.set_controller_reference run secret.meta)

  abbrev pub existing_or_new : AgentRun → Text → GetReply Secret → Action Text
  existing_or_new run name (found secret) = checked run name secret
  existing_or_new run name not_found = create_credential run name
  existing_or_new run name get_failed = raise api_error

  abbrev pub ensure_named : AgentRun → Option Text → Action Text
  ensure_named run none = raise no_uid
  ensure_named run (some name) = get_live_secret env run.namespace name >>= existing_or_new run name

  unfoldable pub ensure_delivery_credential : AgentRun → Action Text
  ensure_delivery_credential run =
      if not env.has_api_reader
      then raise no_api_reader
      else ensure_named run (delivery_credential_secret_name run)

  abbrev pub loaded : Option Text → Loaded
  loaded none = invalid_credential
  loaded (some token) = credential token

  abbrev pub load_reply : AgentRun → GetReply Secret → Action Loaded
  load_reply run (found secret) = pure (loaded (delivery_credential_from_secret run secret))
  load_reply run not_found = pure no_secret
  load_reply run get_failed = pure invalid_credential

  abbrev pub load_named : AgentRun → Option Text → Action Loaded
  load_named run none = pure invalid_credential
  load_named run (some name) = get_live_secret env run.namespace name >>= load_reply run

  unfoldable pub load_delivery_credential : AgentRun → Action Loaded
  load_delivery_credential run =
      if not env.has_api_reader
      then pure invalid_credential
      else load_named run (delivery_credential_secret_name run)
