-- ===== src/PodStatus/Tests.antt =====
-- Runs of ObservePod.
use kontext.Prelude.{
  ◌≡◌, ◌≢◌, ◌↔◌, refl, ◌⊎◌, true, false, [], ◌∷◌, none, some, text, pos, trim_space, strip_prefix,
  list_beq, trim_left, trim_right, is_space,
}
use kontext.Api.{is_terminal, succeeded}
use kontext.Result.{parse}
use kontext.Result.Tests.{toy_json}
use kontext.PodStatus.{
  Pod, pod_pending, pod_running, Terminated, runtime_container_status, observe_pod,
  observation_from_termination, observe_result_envelope,
}
use kontext.PodStatus.Terminal.{Ended, PodEnded, Succeeds, observe_pod-Ended, observation-Succeeds}

abbrev clean_exit : Terminated
clean_exit = record { exit_code = pos 0; message = text "done" }

abbrev finished_pod : Pod
finished_pod = record {
  phase = pod_running;
  container_statuses =
      record {
        name = text "runtime";
        ready = false;
        running = none;
        terminated = some clean_exit;
        waiting = none;
      }
      ∷ [];
}

finished_pod-ended : is_terminal (observe_pod toy_json finished_pod).phase ≡ true
unfolding observe_pod runtime_container_status observation_from_termination observe_result_envelope
    parse strip_prefix trim_space trim_left trim_right is_space list_beq
finished_pod-ended = refl

observe_pod_example :
    (finished_pod.phase ≢ pod_pending)
    × (Ended toy_json (runtime_container_status finished_pod.container_statuses)
        ⊎ PodEnded toy_json finished_pod.phase)
observe_pod_example = observe_pod-Ended toy_json finished_pod finished_pod-ended

observation_example :
    ((observation_from_termination toy_json clean_exit).phase ≡ succeeded)
    ↔ Succeeds toy_json clean_exit
observation_example = observation-Succeeds toy_json clean_exit
