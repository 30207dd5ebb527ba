-- ===== src/Schedule/Policies/Tests.antt =====
-- A run of Parse.
use kontext.Prelude.{
  ℕ, negsuc, arith, ◌≡◌, ◌/◌, ◌*◌, ◌+◌, refl, some, text, pos, false, trim_space, strip_prefix,
  list_beq,
}
use kontext.Api.{forbid, wrap64, ScheduleSpec}
use kontext.Fixtures.{cron, minutely}
use kontext.Schedule.Policies.{
  Policy, policy, parse, has_embedded_time_zone, embedded_from, seconds, IsChecked, parse-IsChecked,
  parse-wraps,
}

abbrev pub minutely_policy : Policy
minutely_policy = record {
  schedule = λ now. (now / 60000000000 + 1) * 60000000000;
  time_zone = text "Etc/UTC";
  concurrency_policy = forbid;
  starting_deadline = pos 60000000000;
  suspend = false;
  successful_runs_history_limit = pos 3;
  failed_runs_history_limit = pos 1;
}

pub minutely-parse : parse cron (some minutely) ≡ policy minutely_policy
unfolding parse has_embedded_time_zone embedded_from seconds wrap64 trim_space strip_prefix list_beq
minutely-parse = refl

parse-IsChecked_example : IsChecked cron minutely minutely_policy
parse-IsChecked_example = parse-IsChecked cron minutely minutely_policy minutely-parse

-- 300 years.
abbrev patient : ScheduleSpec
patient = record minutely { starting_deadline_seconds = some (pos 9467280000) }

abbrev patient_policy : Policy
patient_policy = record minutely_policy { starting_deadline = negsuc 8979464073709551615 }

patient-parse : parse cron (some patient) ≡ policy patient_policy
unfolding parse has_embedded_time_zone embedded_from seconds wrap64 trim_space strip_prefix list_beq
patient-parse = refl

parse-wraps_example : (d : ℕ) × (patient_policy.starting_deadline ≡ negsuc d)
parse-wraps_example =
    parse-wraps cron patient patient_policy 9467280000 patient-parse refl (omega arith)
      (omega arith)
