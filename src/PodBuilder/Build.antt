-- ===== src/PodBuilder/Build.antt =====
-- internal/podbuilder/podbuilder.go: BuildPodWithConfig.
use kontext.Prelude.{
  ℕ, true, false, List, [], ◌∷◌, ◌++◌, Option, none, some, Text, text, ◌==◌, nat_eq, list_eq, pos,
  map_set, trim_space, if◌then◌else◌,
}
use kontext.Api.{
  ResultFormat, ResultSource, last_line, kontext_envelope, RuntimeCapabilities,
  RuntimeSeccompProfile, RuntimeSecurityContext, RuntimeResultSpec, ConfigMapRef, AgentRef,
  AgentRun, plain, sprintf,
}
use kontext.PodStatus.{other, runtime_container_name, Pod as PodState}
use kontext.RunFactory.Resolve.{label_agent_name}
use kontext.PodBuilder.Core.{
  PodEnvVar, SeccompProfile, SecurityContext, VolumeMount, config_map, empty_dir, Volume, Resources,
  Container, Pod,
}
use kontext.PodBuilder.Names.{pod_name_for_run}
use kontext.PodBuilder.Env.{
  Built, built, invalid, ◌>>=◌, token_env_name, token_secret_key, or_no_texts, from_secret,
  build_env,
}

pub record Config : Type 0 where
  pub reporter_image : Text
  pub delivery_credential_secret : Text

abbrev pub label_run_name : Text
label_run_name = text "kontext.dev/run"

abbrev reporter_binary_path : Text
reporter_binary_path = text "/kontext/bin/kontext-reporter"

abbrev reporter_volume_name : Text
reporter_volume_name = text "kontext-reporter-bin"

abbrev if_not_present : Text
if_not_present = text "IfNotPresent"

abbrev localhost : Text → Option Text
localhost t = if t == [] then none else some t

abbrev seccomp : Option RuntimeSeccompProfile → Option SeccompProfile
seccomp none = none
seccomp (some p) =
    some (record { type = p.type; localhost_profile = localhost p.localhost_profile })

abbrev dropped : Option RuntimeCapabilities → Option (List Text)
dropped none = none
dropped (some c) = some c.drop

unfoldable pub runtime_security_context : Option RuntimeSecurityContext → Option SecurityContext
runtime_security_context none = none
runtime_security_context (some config) = some (record {
  run_as_user = none;
  run_as_non_root = config.run_as_non_root;
  allow_privilege_escalation = config.allow_privilege_escalation;
  read_only_root_filesystem = config.read_only_root_filesystem;
  capabilities = dropped config.capabilities;
  seccomp_profile = seccomp config.seccomp_profile;
})

abbrev format_text : ResultFormat → Text
format_text last_line = text "LastLine"
format_text kontext_envelope = text "KontextEnvelope"
format_text (ResultFormat.other t) = t

unfoldable pub reporter_format : ResultFormat → Built Text
reporter_format last_line = built (text "last-line")
reporter_format kontext_envelope = built (text "kontext-envelope")
reporter_format (ResultFormat.other t) =
    invalid (sprintf (text "unsupported runtime result format %q") (t ∷ []))

-- The names of the volume that the reporter is copied to, where the init container mounts it.
abbrev reporter_init_container : Text → Container
reporter_init_container image = record {
  name = text "inject-reporter";
  image = image;
  image_pull_policy = if_not_present;
  command = text "/kontext-reporter" ∷ [];
  args = text "--install-to" ∷ reporter_binary_path ∷ [];
  env = [];
  volume_mounts =
      record {
        name = reporter_volume_name;
        mount_path = text "/kontext/bin";
        sub_path = [];
        read_only = false;
      }
      ∷ [];
  security_context = some (record {
    run_as_user = some (pos 0);
    run_as_non_root = some false;
    allow_privilege_escalation = some false;
    read_only_root_filesystem = some true;
    capabilities = some (text "ALL" ∷ []);
    seccomp_profile = none;
  });
  resources = record { requests = []; limits = [] };
}

abbrev reported : Text → List Text → Container → Container
reported format child container = record container {
  command = reporter_binary_path ∷ text "--format" ∷ format ∷ text "--" ∷ child;
  args = [];
  volume_mounts =
      container.volume_mounts
      ++ record {
        name = reporter_volume_name;
        mount_path = reporter_binary_path;
        sub_path = text "kontext-reporter";
        read_only = true;
      }
        ∷ [];
}

-- The container, the init containers and the volumes.
abbrev pub Parts : Type 0
Parts = Container × (List Container × List Volume)

abbrev with_reporter : Config → List Text → Container → List Volume → Text → Parts
with_reporter config child container volumes format = (
  reported format child container,
  (
    reporter_init_container config.reporter_image ∷ [],
    volumes ++ record { name = reporter_volume_name; source = empty_dir } ∷ [],
  ),
)

-- From the check of the command on.
abbrev inject_command :
    RuntimeResultSpec → List Text → List Text → Config → Container → List Volume → Built Parts
inject_command result [] args config container volumes =
    invalid (plain (text "runtime command is required for stdout result capture"))
inject_command result (executable ∷ rest) args config container volumes =
    if trim_space executable == []
    then invalid (plain (text "runtime command executable cannot be empty"))
    else if trim_space config.reporter_image == []
    then invalid (plain (text "reporter image is not configured"))
    else reporter_format result.format >>= λ format.
        built (with_reporter config ((executable ∷ rest) ++ args) container volumes format)

abbrev by_source :
    ResultSource → RuntimeResultSpec → AgentRun → Config → Container → List Volume → Built Parts
by_source ResultSource.stdout result run config container volumes =
    inject_command result (or_no_texts run.spec.runtime.command) (or_no_texts run.spec.runtime.args)
      config container volumes
by_source (ResultSource.other t) result run config container volumes =
    invalid (sprintf (text "unsupported runtime result source %q") (t ∷ []))

-- With runtime.result; without it nothing is injected.
unfoldable pub inject_reporter :
    Option RuntimeResultSpec → AgentRun → Config → Container → List Volume → Built Parts
inject_reporter none run config container volumes = built (container, ([], volumes))
inject_reporter (some result) run config container volumes =
    by_source result.source result run config container volumes

abbrev config_map_name : Option ConfigMapRef → Text
config_map_name none = []
config_map_name (some r) = r.name

unfoldable pub build_knowledge_volumes : AgentRun → List Volume × List VolumeMount
build_knowledge_volumes run =
    let name = config_map_name run.spec.knowledge_config_map_ref in
    if name == [] then ([], []) else (
      record { name = text "kontext-knowledge"; source = config_map name } ∷ [],
      record {
        name = text "kontext-knowledge";
        mount_path = text "/kontext/knowledge";
        sub_path = [];
        read_only = true;
      }
          ∷ [],
    )

abbrev runtime_resources : Resources
runtime_resources = record {
  requests = (text "cpu", text "50m") ∷ (text "memory", text "64Mi") ∷ [];
  limits = (text "cpu", text "500m") ∷ (text "memory", text "256Mi") ∷ [];
}

abbrev agent_label : Option AgentRef → List (Text × Text) → List (Text × Text)
agent_label none labels = labels
agent_label (some r) labels =
    if r.name == [] then labels else map_set label_agent_name r.name labels

unfoldable pub pod_labels : AgentRun → List (Text × Text)
pod_labels run = agent_label run.spec.agent_ref (
    (text "app.kubernetes.io/name", text "kontext-agentrun")
    ∷ (label_run_name, run.name)
    ∷ (text "app.kubernetes.io/component", text "runtime")
    ∷ [])

abbrev delivery_env : Text → List PodEnvVar → List PodEnvVar
delivery_env secret env =
    if secret == [] then env else env ++ from_secret token_env_name secret token_secret_key ∷ []

unfoldable pub runtime_container : AgentRun → List PodEnvVar → List VolumeMount → Container
runtime_container run env mounts = record {
  name = runtime_container_name;
  image = run.spec.runtime.image;
  image_pull_policy = if_not_present;
  command = or_no_texts run.spec.runtime.command;
  args = or_no_texts run.spec.runtime.args;
  env = env;
  volume_mounts = mounts;
  security_context = runtime_security_context run.spec.runtime.security_context;
  resources = runtime_resources;
}

abbrev no_pod_state : PodState
no_pod_state = record { phase = other []; container_statuses = [] }

unfoldable pub pod_of : AgentRun → Text → Parts → Pod
pod_of run name parts = record {
  meta = record {
    name = name;
    namespace = run.namespace;
    uid = [];
    generation = 0;
    creation_timestamp = 0;
    labels = pod_labels run;
    annotations = [];
    finalizers = [];
    controller = none;
  };
  deletion_timestamp = none;
  spec = record {
    restart_policy = text "Never";
    init_containers = parts.1.0;
    containers = parts.0 ∷ [];
    volumes = parts.1.1;
    service_account_name = run.spec.service_account_name;
  };
  status = no_pod_state;
  pod_ip = [];
  conditions = [];
}

abbrev pub with_parts : AgentRun → Text → Built Parts → Built Pod
with_parts run name (invalid m) = invalid m
with_parts run name (built parts) = built (pod_of run name parts)

module _ (hash8 : Text → Text) (show_float : ℕ → Text) where
  unfoldable pub build_pod_with_config : AgentRun → Config → Built Pod
  build_pod_with_config run config = build_env show_float run >>= λ env.
      let volumes = build_knowledge_volumes run in
      let container =
        runtime_container run (delivery_env config.delivery_credential_secret env) volumes.1 in
      with_parts run (pod_name_for_run hash8 run.name)
        (inject_reporter run.spec.runtime.result run config container volumes.0)
