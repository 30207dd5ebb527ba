-- ===== src/Fixtures.antt =====
-- Agents, AgentRuns and an API server for the tests.
use kontext.Prelude.{
  ℕ, ◌+◌, ◌*◌, ◌/◌, true, false, [], ◌∷◌, ◌++◌, Option, none, some, Text, text, show_nat, read_nat,
}
use kontext.Api.{
  Time, AgentMode, task, service, scheduled, unset, ScheduleSpec, RuntimeSpec, AgentSpec, Agent,
  AgentRunPhase, succeeded, running, AgentRunSpec, AgentRun, ObjectMeta, OwnerReference,
  nanos_per_second,
}
use kontext.RunFactory.Resolve.{no_status}
use kontext.Schedule.Policies.{CronLibrary}
use kontext.Schedule.Metadata.{TimeCodec}
use kontext.Controller.Kube.{Environment, created, not_found, deleted}

abbrev pub plain_runtime : RuntimeSpec
plain_runtime = record {
  image = [];
  command = none;
  args = none;
  result = none;
  delivery = none;
  security_context = none;
}

abbrev pub meta_of : Text → ObjectMeta
meta_of name = record {
  name = name;
  namespace = text "default";
  uid = text "uid";
  generation = 1;
  creation_timestamp = 0;
  labels = [];
  annotations = [];
  finalizers = [];
  controller = none;
}

abbrev pub minutely : ScheduleSpec
minutely = record {
  expression = text "* * * * *";
  time_zone = [];
  concurrency_policy = unset;
  starting_deadline_seconds = none;
  suspend = false;
  successful_runs_history_limit = none;
  failed_runs_history_limit = none;
}

abbrev pub agent_spec : AgentMode → Text → Text → AgentSpec
agent_spec mode goal goal_template = record {
  mode = mode;
  runtime = plain_runtime;
  goal = goal;
  goal_template = goal_template;
  provider = text "OpenAI";
  model = text "m";
  tools = none;
  budget = none;
  secret_ref = none;
  knowledge_config_map_ref = none;
  service_account_name = [];
  env = none;
  schedule = some minutely;
  backoff = none;
}

abbrev pub agent_of : AgentSpec → Agent
agent_of spec = record {
  meta = meta_of (text "a");
  spec = spec;
  status = record {
    conditions = [];
    current_run_name = [];
    last_run_name = [];
    runs_created = 0;
    restarts = 0;
    last_schedule_time = none;
    next_schedule_time = some 60000000000;
    observed_generation = 1;
  };
}

abbrev pub task_agent : Agent
task_agent = agent_of (agent_spec task [] (text "fix ${it}"))

abbrev pub service_agent : Agent
service_agent = agent_of (agent_spec service (text "serve") [])

abbrev pub scheduled_agent : Agent
scheduled_agent = agent_of (agent_spec scheduled (text "tidy") [])

abbrev pub no_run_spec : AgentRunSpec
no_run_spec = record {
  agent_ref = some (record { name = text "a" });
  parameters = none;
  delivery = none;
  goal = [];
  provider = [];
  model = [];
  tools = none;
  budget = none;
  secret_ref = none;
  knowledge_config_map_ref = none;
  service_account_name = [];
  runtime = plain_runtime;
  env = none;
}

abbrev pub run_of : Text → AgentRunPhase → AgentRun
run_of name phase = record {
  type_meta = record { kind = []; api_version = [] };
  meta = meta_of name;
  spec = no_run_spec;
  status = record no_status { phase = phase };
}

abbrev pub owner : OwnerReference
owner = record {
  api_version = text "kontext.dev/v1alpha1";
  kind = text "Agent";
  name = text "a";
  uid = text "uid";
}

-- Every whole minute.
abbrev pub cron : CronLibrary
cron = record {
  parse_cron = λ t. some λ now. (now / 60000000000 + 1) * 60000000000;
  load_location = λ name. true;
}

abbrev pub seconds_of : Option ℕ → Option Time
seconds_of none = none
seconds_of (some n) = some (n * nanos_per_second)

-- A codec that prints whole seconds.
abbrev pub codec : TimeCodec
codec = record {
  format = λ t. show_nat (t / nanos_per_second);
  parse = λ s. seconds_of (read_nat s);
}

-- A server that lists a finished and a running run, and answers every call.
abbrev pub server : Environment
server = record {
  now = λ h. 61000000000;
  list_owned =
      λ h ns uid. some (run_of (text "a-1") succeeded ∷ run_of (text "other") running ∷ []);
  create_run = λ h run. created;
  get_run = λ h ns name. not_found;
  delete_run = λ h run. deleted;
  patch_agent_status = λ h agent status. true;
  has_api_reader = true;
  is_controlled_by = λ meta agent. true;
  set_controller_reference = λ agent meta. some owner;
  set_status_condition = λ cs c. cs ++ c ∷ [];
  cron = cron;
  codec = codec;
  hash8 = λ name. text "0123abcd";
}
