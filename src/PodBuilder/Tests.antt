-- ===== src/PodBuilder/Tests.antt =====
-- Runs of the Pod builder.
use kontext.Prelude.{
  ◌≡◌, ◌↔◌, refl, [], List, ◌++◌, Text, text, show_nat, list_beq, to_lower, lower,
}
use kontext.Api.{pending, AgentRun}
use kontext.Schedule.RunNames.{trim_dashes}
use kontext.Fixtures.{run_of}
use kontext.PodBuilder.Core.{PodEnvVar}
use kontext.PodBuilder.Names.{
  pod_name_for_run, legacy_pod_name_for_run, sanitized_run_name, replace_invalid, trim_left_dashes,
}
use kontext.PodBuilder.Labels.{IsHash, IsLabel, pod_names-IsLabel}
use kontext.PodBuilder.Env.{built, build_env, base_env, provider_env}
use kontext.PodBuilder.Reserved.{IsProtected, build_env_iff}

abbrev hash : Text → Text
hash s = text "0123abcd"

hash-IsHash : IsHash hash
hash-IsHash = record {
  size = λ s. refl;
  hex = λ s. (refl, (refl, (refl, (refl, (refl, (refl, (refl, (refl, tt))))))));
  last = λ s. refl;
}

pod_name : pod_name_for_run hash (text "-Nightly  Report.v2-") ≡ text "run-nightly-report-v2"
unfolding pod_name_for_run sanitized_run_name replace_invalid trim_left_dashes trim_dashes list_beq
    to_lower lower
pod_name = refl

pod_names_example :
    IsLabel (pod_name_for_run hash (text "A!")) × IsLabel (legacy_pod_name_for_run (text "A!"))
pod_names_example = pod_names-IsLabel hash (text "A!") hash-IsHash

abbrev plain_run : AgentRun
plain_run = run_of (text "r") pending

abbrev plain_env : List PodEnvVar
plain_env = base_env show_nat plain_run ++ [] ++ provider_env plain_run

build_env_example :
    (build_env show_nat plain_run ≡ built plain_env) ↔ IsProtected show_nat plain_run plain_env
build_env_example = build_env_iff show_nat plain_run plain_env
