-- ===== src/AgentRuns/ProgressTests.antt =====
-- Runs of the AgentRun reconciler that bring something about.
use kontext.Prelude.{◌≡◌, refl, true, [], ◌∷◌, ◌++◌, Option, none, show_nat, list_beq, arith}
use kontext.Api.{is_terminal, AgentRun, AgentRunStatus}
use kontext.PodBuilder.Core.{Pod}
use kontext.PodBuilder.Names.{pod_name_for_run}
use kontext.PodBuilder.Env.{build_env, base_env, extra_env, provider_env}
use kontext.PodBuilder.Build.{
  build_pod_with_config, runtime_container, build_knowledge_volumes, inject_reporter, pod_of,
}
use kontext.Fixtures.{owner}
use kontext.Controller.Kube.{RunCall}
use kontext.AgentRuns.Cluster.{RunEnvironment}
use kontext.AgentRuns.Calls.{calls_of}
use kontext.AgentRuns.Status.{parse_wallclock_budget}
use kontext.AgentRuns.PodBacked.Reconcile.{reconcile_pod_backed}
use kontext.AgentRuns.PodBacked.Progress.{IsStarted, reconcile_pod_backed-starts}
use kontext.AgentRuns.Delivery.Reconcile.{reconcile_delivery}
use kontext.AgentRuns.Delivery.Expiry.{reconcile_delivery-expires}
use kontext.AgentRuns.Tests.{plain_run, delivered_run, run_server}

abbrev plain_pod : Pod
plain_pod = pod_of plain_run (pod_name_for_run run_server.hash8 plain_run.name) (
  runtime_container plain_run (base_env show_nat plain_run ++ [] ++ provider_env plain_run) [],
  ([], []),
)

starts_example :
    IsStarted run_server plain_run plain_pod owner (reconcile_pod_backed run_server plain_run []).1
unfolding build_pod_with_config build_env extra_env inject_reporter build_knowledge_volumes list_beq
    parse_wallclock_budget
starts_example =
    reconcile_pod_backed-starts run_server plain_run plain_pod owner none refl
      (record { unrecorded = refl; named = λ h. refl; legacy = λ h. refl }) refl refl refl refl

abbrev late_server : RunEnvironment
late_server = record run_server { now = λ h. 400000000000 }

abbrev old_run : AgentRun
old_run = record delivered_run { meta = record delivered_run.meta { creation_timestamp = 1 } }

expires_example :
    (next : AgentRunStatus) × (reply : Option AgentRun) × (calls_of
        (reconcile_delivery late_server old_run []).1
      ≡ RunCall.patch_run old_run next reply ∷ [])
    × (is_terminal next.phase ≡ true)
unfolding parse_wallclock_budget
expires_example = reconcile_delivery-expires late_server old_run none refl refl refl (omega arith)
