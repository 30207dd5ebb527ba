-- ===== src/RunFactory/Resolve.antt =====
-- internal/runfactory/runfactory.go: NewForAgent, ResolveInvocation and ValidateTask.
-- controllerutil.SetControllerReference is a parameter: from the owner and the metadata of the
-- object it gives the controller reference, or fails. A nil argument is `none`.
pub mod Validity
pub mod Snapshot
pub mod Names
pub mod Delivery
pub mod Tests
use kontext.Prelude.{
  ℕ, Bool, true, false, ◌&&◌, ◌||◌, not, List, [], ◌∷◌, ◌++◌, Option, none, some, Text, text,
  String, ◌==◌, nat_eq, list_eq, is_some, ℤ, pos, negsuc, ltb_ℤ, leb_ℤ, map_get, map_set,
  sort_texts, strip_prefix, parse_int32, show_int, if◌then◌else◌,
}
use kontext.Api.{
  AgentMode, task, service, scheduled, other, RuntimeSpec, AgentSpec, Agent, AgentRef,
  AgentRunDeliverySpec, AgentRunSpec, AgentRunStatus, AgentRun, ObjectMeta, OwnerReference, Message,
  plain, sprintf, unset,
}
use kontext.Policy.{normalize_provider}
use kontext.RunFactory.Errors.{
  ResolutionError, missing_agent, wrong_mode, delivery_disabled, invalid_delivery, reserved_name,
  invalid_template, missing_parameters, conflicting_fields, error_of, Result, ok, err, ◌>>=◌,
}
use kontext.RunFactory.Goal.{Parameters, bad_template, interpolate_goal, resolve_task_goal}

-- podbuilder.LabelAgentName.
abbrev pub label_agent_name : Text
label_agent_name = text "kontext.dev/agent"

abbrev pub SetControllerReference : Type 0
SetControllerReference = Agent → ObjectMeta → Option OwnerReference

abbrev pub no_status : AgentRunStatus
no_status = record {
  phase = unset;
  pod_name = [];
  result = [];
  output = none;
  usage = none;
  start_time = none;
  completion_time = none;
  message = plain [];
  conditions = [];
}

abbrev pub new_meta : Agent → Text → ObjectMeta
new_meta agent run_name = record {
  name = run_name;
  namespace = agent.namespace;
  uid = [];
  generation = 0;
  creation_timestamp = 0;
  labels = (label_agent_name, agent.name) ∷ [];
  annotations = [];
  finalizers = [];
  controller = none;
}

-- The resolved execution snapshot of an Agent.
pub new_spec : Agent → Text → AgentRunSpec
new_spec agent goal = record {
  agent_ref = some (record { name = agent.name });
  parameters = none;
  delivery = none;
  goal = goal;
  provider = normalize_provider agent.spec.provider;
  model = agent.spec.model;
  tools = agent.spec.tools;
  budget = agent.spec.budget;
  secret_ref = agent.spec.secret_ref;
  knowledge_config_map_ref = agent.spec.knowledge_config_map_ref;
  service_account_name = agent.spec.service_account_name;
  runtime = agent.spec.runtime;
  env = agent.spec.env;
}

abbrev pub owned : ObjectMeta → AgentRunSpec → OwnerReference → AgentRun
owned meta spec owner = record {
  type_meta = record { kind = []; api_version = [] };
  meta = record meta { controller = some owner };
  spec = spec;
  status = no_status;
}

-- `none` is the error of SetControllerReference.
unfoldable pub new_for_agent : SetControllerReference → Agent → Text → Text → Option AgentRun
new_for_agent set_ref agent run_name goal = elim (set_ref agent (new_meta agent run_name)) [
  | none ↦ none
  | some owner ↦ some (owned (new_meta agent run_name) (new_spec agent goal) owner)
]

-- reflect.DeepEqual with the zero RuntimeSpec.
pub is_zero_runtime : RuntimeSpec → Bool
is_zero_runtime r =
    r.image == []
    && not (is_some r.command)
    && not (is_some r.args)
    && not (is_some r.result)
    && not (is_some r.delivery)
    && not (is_some r.security_context)

pub supplied : Bool → Text → List Text → List Text
supplied true name fields = fields ++ name ∷ []
supplied false name fields = fields

pub locked_fields : AgentRunSpec → List Text
locked_fields spec =
    let f = supplied (not (spec.goal == [])) (text "goal") [] in
    let f = supplied (not (spec.provider == [])) (text "provider") f in
    let f = supplied (not (spec.model == [])) (text "model") f in
    let f = supplied (is_some spec.tools) (text "tools") f in
    let f = supplied (is_some spec.budget) (text "budget") f in
    let f = supplied (is_some spec.secret_ref) (text "secretRef") f in
    let f = supplied (is_some spec.knowledge_config_map_ref) (text "knowledgeConfigMapRef") f in
    let f = supplied (not (spec.service_account_name == [])) (text "serviceAccountName") f in
    let f = supplied (not (is_zero_runtime spec.runtime)) (text "runtime") f in
    let f = supplied (is_some spec.env) (text "env") f in
    supplied (is_some spec.delivery) (text "delivery") f

pub locked_invocation_fields : AgentRunSpec → List Text
locked_invocation_fields spec = sort_texts (locked_fields spec)

-- strconv.ParseInt on what follows "<agent>-", a value below 1 being refused.
abbrev pub positive : Option ℤ → Option ℤ
positive none = none
positive (some v) = if ltb_ℤ v (pos 1) then none else some v

abbrev pub suffix_value : Text → Text → Option ℤ
suffix_value agent_name run_name = elim (strip_prefix (agent_name ++ text "-") run_name) [
  | none ↦ none
  | some s ↦ positive (parse_int32 s)
]

unfoldable pub is_reserved_service_run_name : Text → Text → Bool
is_reserved_service_run_name agent_name run_name = elim (suffix_value agent_name run_name) [
  | none ↦ false
  | some v ↦ run_name == agent_name ++ text "-" ++ show_int v
]

abbrev with_detail : ResolutionError → Message → ResolutionError
with_detail e d = record e { detail = d }

abbrev about : ResolutionError → Text → ResolutionError
about e agent_name = record e { agent_name = agent_name }

abbrev pub Goal : Type 0
Goal = Text × Option AgentRunDeliverySpec

abbrev given : Option Parameters → Parameters
given none = []
given (some ps) = ps

-- The Service case of the switch, under a declared runtime.delivery port.
pub resolve_service_goal : Agent → AgentRun → ℤ → Result Goal
resolve_service_goal agent invocation port =
    if is_reserved_service_run_name agent.name invocation.name
    then err (
        with_detail (error_of reserved_name) (
          sprintf (text "AgentRun name %q is reserved for standing runs of Service Agent %q")
            (invocation.name ∷ agent.name ∷ [])))
    else if ltb_ℤ port (pos 1) || ltb_ℤ (pos 65535) port
    then err (
        with_detail (error_of invalid_delivery) (
          sprintf (text "Service Agent %q has invalid runtime.delivery.port %d")
            (agent.name ∷ show_int port ∷ [])))
    else if agent.spec.goal == [] || agent.spec.goal_template == []
    then err (
        bad_template
          (plain (text "Service Agent with runtime.delivery must configure goal and goalTemplate")))
    else (interpolate_goal agent.spec.goal_template (given invocation.spec.parameters) >>= λ goal.
        ok (goal, some (record { port = port })))

-- The switch on the mode.
pub resolve_goal : AgentMode → Agent → AgentRun → Result Goal
resolve_goal task agent invocation =
    resolve_task_goal agent.spec invocation.spec.parameters >>= λ goal. ok (goal, none)
resolve_goal service agent invocation = elim agent.spec.runtime.delivery [
  | none ↦ err (about (error_of delivery_disabled) agent.name)
  | some d ↦ resolve_service_goal agent invocation d.port
]
resolve_goal mode agent invocation =
    err (record (about (error_of wrong_mode) agent.name) { mode = mode })

-- Invocation labels are added one by one, then the Agent's label is set again.
pub add_labels : List (Text × Text) → List (Text × Text) → List (Text × Text)
add_labels [] labels = labels
add_labels ((k, v) ∷ more) labels = add_labels more (map_set k v labels)

pub stamp : Agent → AgentRun → Option AgentRunDeliverySpec → AgentRun → AgentRun
stamp agent invocation delivery run = record {
  type_meta = invocation.type_meta;
  meta = record run.meta {
    annotations = invocation.meta.annotations;
    finalizers = invocation.meta.finalizers;
    labels =
        map_set label_agent_name agent.name (add_labels invocation.meta.labels run.meta.labels);
  };
  spec = record run.spec { parameters = invocation.spec.parameters; delivery = delivery };
  status = run.status;
}

pub data Resolution : Type 0 where
  resolved : AgentRun → Resolution
  rejected : ResolutionError → Resolution
  reference_error : Resolution

abbrev build : SetControllerReference → Agent → AgentRun → Result Goal → Resolution
build set_ref agent invocation (err e) = rejected e
build set_ref agent invocation (ok (goal, delivery)) =
    elim (new_for_agent set_ref agent invocation.name goal) [
      | none ↦ reference_error
      | some run ↦ resolved (stamp agent invocation delivery run)
    ]

abbrev pub reference_name : AgentRun → Text
reference_name invocation = elim invocation.spec.agent_ref [ none ↦ [] | some r ↦ r.name ]

-- The invocation names the Agent, in its namespace if it has one.
pub refers_to : AgentRun → Agent → Bool
refers_to invocation agent =
    not (reference_name invocation == [])
    && reference_name invocation == agent.name
    && (invocation.namespace == [] || invocation.namespace == agent.namespace)

abbrev no_locked : List Text → Resolution → Resolution
no_locked [] go = go
no_locked (f ∷ fs) go = rejected (record (error_of conflicting_fields) { names = f ∷ fs })

pub resolve_invocation : SetControllerReference → Option Agent → Option AgentRun → Resolution
resolve_invocation set_ref agent none = rejected (error_of missing_agent)
resolve_invocation set_ref none (some invocation) =
    rejected (about (error_of missing_agent) (reference_name invocation))
resolve_invocation set_ref (some agent) (some invocation) =
    if not (refers_to invocation agent)
    then rejected (about (error_of missing_agent) (reference_name invocation))
    else no_locked (locked_invocation_fields invocation.spec)
        (build set_ref agent invocation (resolve_goal agent.spec.mode agent invocation))

-- nil, or an error other than missing parameters.
abbrev pub forgive : Result Text → Option ResolutionError
forgive (ok goal) = none
forgive (err e) = elim e.code [ missing_parameters ↦ none | _ ↦ some e ]

abbrev pub task_only : AgentMode → Agent → Option ResolutionError
task_only task agent = forgive (resolve_task_goal agent.spec none)
task_only mode agent = some (record (about (error_of wrong_mode) agent.name) { mode = mode })

-- The error, `none` being nil.
pub validate_task : Option Agent → Option ResolutionError
validate_task none = some (error_of missing_agent)
validate_task (some agent) = task_only agent.spec.mode agent
