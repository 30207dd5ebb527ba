-- ===== src/AgentRuns/Tests.antt =====
-- Runs of the AgentRun reconciler.
use kontext.Prelude.{
  ◌≡◌, refl, inl, true, [], ◌∷◌, ◌++◌, none, some, text, pos, show_nat, list_beq, is_some, ◌∙◌,
  ◌==◌, if◌then◌else◌, arith, ap, sym, nat_eq, list_eq,
}
use kontext.Api.{
  condition_true, condition_false, plain, is_terminal, pending, running, failed, Agent, AgentRun,
  AgentRunStatus,
}
use kontext.PodStatus.{pod_running}
use kontext.PodBuilder.Core.{Pod}
use kontext.Result.Tests.{toy_json}
use kontext.DeliveryContract.Tests.{toy_crypto}
use kontext.Fixtures.{meta_of, run_of, service_agent, owner}
use kontext.Controller.Kube.{
  ◌>>=◌, pure, created, found, not_found, deleted, response, Secret, RunCall,
}
use kontext.Controller.Status.{condition, progressing, set_status_conditions}
use kontext.AgentRuns.Status.{complete, for_agent_run_phase, parse_wallclock_budget, transition_run}
use kontext.AgentRuns.PodBacked.{reconcile_missing_pod}
use kontext.AgentRuns.PodBacked.Reconcile.{find_pod}
use kontext.AgentRuns.Cluster.{
  RunEnvironment, get_cached_run, get_cached_pod, get_live_pod, now, patch_status,
}
use kontext.AgentRuns.Calls.{Calls, Requested}
use kontext.AgentRuns.Transitions.{Faithful, life}
use kontext.AgentRuns.PodBacked.Reconcile.{reconcile_pod_backed}
use kontext.AgentRuns.PodBacked.Safety.{IsAllowed}
use kontext.AgentRuns.PodBacked.Conforms.{reconcile_pod_backed-Calls}
use kontext.AgentRuns.Delivery.Conforms.{IsDelivery}
use kontext.AgentRuns.Delivery.Reconcile.{reconcile_delivery}
use kontext.AgentRuns.Delivery.Safety.{reconcile_delivery-Calls}
use kontext.AgentRuns.Life.{
  ReadsConsistent, patched, Lives, unchanged, changed, LifePath, Lives-refines,
}
use kontext.AgentRuns.Reconcile.{reconcile}

abbrev pub plain_run : AgentRun
plain_run = run_of (text "r") pending

-- A run whose Pod is recorded, and one that a Service is to serve.
abbrev recorded : AgentRun
recorded = record plain_run { status = record plain_run.status { pod_name = text "run-r" } }

abbrev pub delivered_run : AgentRun
delivered_run = record plain_run {
  spec = record plain_run.spec { delivery = some (record { port = pos 8080 }) };
}

abbrev standing : AgentRun
standing = record plain_run {
  status = record plain_run.status { phase = running; pod_name = text "run-s" };
  spec = record plain_run.spec {
    runtime = record plain_run.spec.runtime { delivery = some (record { port = pos 8080 }) };
  };
}

abbrev standing_agent : Agent
standing_agent = record service_agent {
  status = record service_agent.status { current_run_name = text "s" };
}

abbrev ready_pod : Pod
ready_pod = record {
  meta = meta_of (text "run-s");
  deletion_timestamp = none;
  spec = record {
    restart_policy = text "Never";
    init_containers = [];
    containers = [];
    volumes = [];
    service_account_name = [];
  };
  status = record {
    phase = pod_running;
    container_statuses =
        record {
          name = text "runtime";
          ready = true;
          running = some 1;
          terminated = none;
          waiting = none;
        }
        ∷ [];
  };
  pod_ip = text "10.0.0.1";
  conditions = record { type = text "Ready"; status = text "True" } ∷ [];
}

abbrev shared_secret : Secret
shared_secret = record {
  meta = meta_of (text "delivery-auth-0");
  immutable = true;
  type = text "Opaque";
  data_entries = (text "token", text "k") ∷ [];
}

-- No Pod for a run of its own, a Service that is ready, and a server that does what it is asked.
abbrev pub run_server : RunEnvironment
run_server = record {
  now = λ h. 61000000000;
  cached_run = λ h ns name. found recorded;
  cached_pod = λ h ns name. not_found;
  live_run = λ h ns name. found (if name == text "s" then standing else delivered_run);
  live_pod = λ h ns name. if name == text "run-s" then found ready_pod else not_found;
  live_agent = λ h ns name. found standing_agent;
  live_secret = λ h ns name. found shared_secret;
  create_pod = λ h pod. created;
  delete_pod = λ h pod. deleted;
  create_secret = λ h secret. created;
  patch_run_status = λ h run next. some (record run { status = next });
  post = λ h request. response (record {
    status_code = 200;
    headers = (text "Content-Type", text "application/json") ∷ [];
    body = some (text "{}");
  });
  random_token = λ h. some (text "challenge");
  has_api_reader = true;
  is_controlled_by_run = λ meta run. true;
  is_controlled_by_agent = λ meta agent. true;
  set_controller_reference = λ run meta. some owner;
  set_status_condition = λ cs c. cs ++ c ∷ [];
  json = toy_json;
  request_json = record { write = λ r. r.goal; read = λ t. none };
  is_url = λ t. true;
  media_type = λ t. some t;
  crypto = toy_crypto;
  parse_duration = λ t. some (pos 60000000000);
  show_duration = λ d. text "1m0s";
  show_float = show_nat;
  hash8 = λ t. text "0123abcd";
  hash16 = λ t. text "0123456789abcdef";
  reporter_image = text "reporter";
}

sent :
    (run after : AgentRun) (next : AgentRunStatus)
    → some (record run { status = next }) ≡ some after
    → after ≡ record run { status = next }
sent run after next e = ground arith

run_server-Faithful : Faithful run_server
run_server-Faithful = record {
  status = λ h run next after e. ap (λ (r : AgentRun). r.status) (sent run after next e);
  meta = λ h run next after e. ap (λ (r : AgentRun). r.meta) (sent run after next e);
  spec = λ h run next after e. ap (λ (r : AgentRun). r.spec) (sent run after next e);
}

reconcile_pod_backed_example :
    Calls (IsAllowed run_server plain_run) (reconcile_pod_backed run_server plain_run []).1
reconcile_pod_backed_example =
    reconcile_pod_backed-Calls run_server plain_run run_server-Faithful refl

reconcile_delivery_example :
    Calls (IsDelivery run_server delivered_run) (reconcile_delivery run_server delivered_run []).1
reconcile_delivery_example = reconcile_delivery-Calls run_server delivered_run run_server-Faithful

run_server-ReadsConsistent : ReadsConsistent run_server
run_server-ReadsConsistent = record {
  cached = λ h ns name run e.
      let same : run ≡ recorded = ground arith in
      ap (λ (r : AgentRun). is_some r.status.completion_time) same
      ∙ sym (ap (λ (r : AgentRun). is_terminal r.status.phase) same);
}

-- The recorded Pod is gone.
abbrev lost : AgentRunStatus
lost = record recorded.status {
  phase = failed;
  completion_time = some 61000000000;
  message = plain (text "Pod lost before run completed.");
  conditions =
      record (condition complete condition_true (text "Failed")
        (plain (text "Agent run finished."))) { observed_generation = 1 }
      ∷ record (condition progressing condition_false (text "Failed")
          (plain (text "Agent run is no longer active."))) { observed_generation = 1 }
      ∷ [];
}

losing-Requested :
    Requested
      (RunCall.patch_run recorded lost (some (record recorded { status = lost })))
      (reconcile run_server (text "default") (text "r") []).1
unfolding reconcile reconcile_pod_backed Requested find_pod for_agent_run_phase
    set_status_conditions ◌>>=◌ get_cached_run get_cached_pod list_beq get_live_pod pure
    parse_wallclock_budget reconcile_missing_pod transition_run now patch_status
losing-Requested = inl refl

abbrev one_server : Unit {0} → RunEnvironment
one_server i = run_server

losing : Lives one_server recorded.status lost
losing = changed unchanged (
    patched tt (text "default") (text "r") recorded (some (record recorded { status = lost }))
      losing-Requested refl)

Lives-refines_example :
    LifePath (life recorded.status) (life lost)
    × (is_terminal recorded.status.phase ≡ true → lost ≡ recorded.status)
Lives-refines_example =
    Lives-refines one_server (λ i. run_server-Faithful) (λ i. run_server-ReadsConsistent) losing
