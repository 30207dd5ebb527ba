-- ===== src/Schedule/Policies.antt =====
-- internal/scheduler/scheduler.go: Parse. The cron library's parser and the time zone database are
-- parameters; a schedule is its Next function.
pub mod Tests
use kontext.Prelude.{
  ℕ, zero, suc, ◌+◌, ◌-◌, ◌*◌, ◌≤◌, ◌<◌, ◌≡◌, ◌≢◌, refl, inl, inr, ◌⊎◌, Bool-cases, Option-cases,
  Bool, true, false, ◌&&◌, ◌||◌, not, List, [], ◌∷◌, ◌++◌, Option, none, some, Text, text, arith,
  leb, ◌==◌, nat_eq, list_eq, is_some, strip_prefix, trim_space, is_space, ℤ, pos, negsuc, ltb_ℤ,
  ◌≤ℤ◌, if◌then◌else◌,
}
use kontext.Api.{
  Time, Duration, nanos_per_second, wrap64, ConcurrencyPolicy, unset, allow, forbid, ScheduleSpec,
  Message, plain, sprintf,
}

-- cron.Schedule: Next gives the first activation later than a time.
abbrev pub CronSchedule : Type 0
CronSchedule = Time → Time

-- robfig/cron's parser for five fields, and time.LoadLocation.
pub record CronLibrary : Type 0 where
  pub parse_cron : Text → Option CronSchedule
  pub load_location : Text → Bool

pub record Policy : Type 0 where
  pub schedule : CronSchedule
  pub time_zone : Text
  pub concurrency_policy : ConcurrencyPolicy
  pub starting_deadline : Duration
  pub suspend : Bool
  pub successful_runs_history_limit : ℤ
  pub failed_runs_history_limit : ℤ

pub data Parsed : Type 0 where
  policy : Policy → Parsed
  invalid : Message → Parsed

abbrev default_time_zone : Text
default_time_zone = text "Etc/UTC"

-- "TZ=" or "CRON_TZ=" at this place.
abbrev zone_here : Text → Bool
zone_here s = is_some (strip_prefix (text "CRON_TZ=") s) || is_some (strip_prefix (text "TZ=") s)

-- The pattern (^|[[:space:]])(CRON_TZ|TZ)=, searched from a place that may begin a word.
embedded_from : Bool → Text → Bool
embedded_from start [] = false
embedded_from start (c ∷ s) = (start && zone_here (c ∷ s)) || embedded_from (is_space c) s

pub has_embedded_time_zone : Text → Bool
has_embedded_time_zone = embedded_from true

abbrev or_default_zone : Text → Text
or_default_zone name = if name == [] then default_time_zone else name

abbrev or_forbid : ConcurrencyPolicy → ConcurrencyPolicy
or_forbid unset = forbid
or_forbid p = p

abbrev is_supported : ConcurrencyPolicy → Bool
is_supported allow = true
is_supported forbid = true
is_supported _ = false

abbrev get_or_default : Option ℤ → ℤ → ℤ
get_or_default none d = d
get_or_default (some v) d = v

abbrev policy_text : ConcurrencyPolicy → Text
policy_text (ConcurrencyPolicy.other t) = t
policy_text _ = []

-- time.Duration(seconds) * time.Second on a count that is not negative; an int64 product wraps.
pub seconds : ℤ → Duration
seconds (pos n) = wrap64 (n * nanos_per_second)
seconds (negsuc n) = negsuc (suc n * nanos_per_second - 1)

-- The checks behind the schedule, in the order of the source.
abbrev checked : ScheduleSpec → Text → CronSchedule → Parsed
checked spec zone schedule =
    let p = or_forbid spec.concurrency_policy in
    let deadline = get_or_default spec.starting_deadline_seconds (pos 60) in
    let successes = get_or_default spec.successful_runs_history_limit (pos 3) in
    let failures = get_or_default spec.failed_runs_history_limit (pos 1) in
    if not (is_supported p)
    then invalid (sprintf (text "unsupported schedule.concurrencyPolicy %q") (policy_text p ∷ []))
    else if ltb_ℤ deadline (pos 0)
    then invalid (plain (text "schedule.startingDeadlineSeconds must not be negative"))
    else if ltb_ℤ successes (pos 0) || ltb_ℤ failures (pos 0)
    then invalid (plain (text "schedule history limits must not be negative"))
    else policy (record {
      schedule = schedule;
      time_zone = zone;
      concurrency_policy = p;
      starting_deadline = seconds deadline;
      suspend = spec.suspend;
      successful_runs_history_limit = successes;
      failed_runs_history_limit = failures;
    })

abbrev bad_cron : Text → Message
bad_cron expression =
    sprintf (text "invalid standard five-field schedule.expression %q: %w") (expression ∷ [])

abbrev parse_spec : CronLibrary → ScheduleSpec → Text → Text → Parsed
parse_spec lib spec expression zone =
    if has_embedded_time_zone expression
    then invalid (plain (text "schedule.expression must not contain TZ or CRON_TZ"))
    else if not (lib.load_location zone)
    then invalid (sprintf (text "invalid IANA schedule.timeZone %q: %w") (zone ∷ []))
    else elim (lib.parse_cron (text "CRON_TZ=" ++ zone ++ text " " ++ expression)) [
      | none ↦ invalid (bad_cron expression)
      | some schedule ↦ checked spec zone schedule
    ]

-- The wrapped error of a library behind %w is left out of the message's arguments.
pub parse : CronLibrary → Option ScheduleSpec → Parsed
parse lib none = invalid (plain (text "spec.schedule is required"))
parse lib (some spec) =
    parse_spec lib spec (trim_space spec.expression) (or_default_zone spec.time_zone)

-- A policy of a spec that passed every check: the expression has no time zone of its own, the zone is
-- known, the schedule is the cron library's for both, the concurrency policy is one of the two, no
-- count is negative, and the rest is the spec's or its default.
pub record IsChecked (lib : CronLibrary) (spec : ScheduleSpec) (p : Policy) : Type 0 where
  pub no_zone : has_embedded_time_zone (trim_space spec.expression) ≡ false
  pub time_zone : p.time_zone ≡ or_default_zone spec.time_zone
  pub known_zone : lib.load_location p.time_zone ≡ true
  pub schedule :
      lib.parse_cron (text "CRON_TZ=" ++ p.time_zone ++ text " " ++ trim_space spec.expression)
      ≡ some p.schedule
  pub concurrency : p.concurrency_policy ≡ or_forbid spec.concurrency_policy
  pub counted : (n : ℕ) → spec.starting_deadline_seconds ≢ some (negsuc n)
  pub success_limit :
      p.successful_runs_history_limit ≡ get_or_default spec.successful_runs_history_limit (pos 3)
  pub failure_limit :
      p.failed_runs_history_limit ≡ get_or_default spec.failed_runs_history_limit (pos 1)
  pub supported : (p.concurrency_policy ≡ allow) ⊎ (p.concurrency_policy ≡ forbid)
  pub successes : pos 0 ≤ℤ p.successful_runs_history_limit
  pub failures : pos 0 ≤ℤ p.failed_runs_history_limit
  pub suspend : p.suspend ≡ spec.suspend
  pub deadline :
      (n : ℕ)
      → spec.starting_deadline_seconds ≡ some (pos n)
      → n ≤ 9223372036
      → p.starting_deadline ≡ pos (n * nanos_per_second)
  pub default_deadline :
      spec.starting_deadline_seconds ≡ none → p.starting_deadline ≡ pos 60000000000

pub seconds_exact : (n : ℕ) → n ≤ 9223372036 → seconds (pos n) ≡ pos (n * nanos_per_second)
unfolding seconds wrap64
seconds_exact n h = ground arith

seconds_wrapped :
    (n : ℕ) → 9223372036 < n → n ≤ 18446744073 → (d : ℕ) × (seconds (pos n) ≡ negsuc d)
unfolding seconds wrap64
seconds_wrapped n lo hi = (18446744073709551615 - n * nanos_per_second, ground arith)

-- What the checks behind the schedule leave.
record IsBehind (spec : ScheduleSpec) (zone : Text) (schedule : CronSchedule) (p : Policy)
    : Type 0 where
  zone_kept : p.time_zone ≡ zone
  schedule_kept : p.schedule ≡ schedule
  concurrency : p.concurrency_policy ≡ or_forbid spec.concurrency_policy
  supported : (p.concurrency_policy ≡ allow) ⊎ (p.concurrency_policy ≡ forbid)
  counted : (n : ℕ) → spec.starting_deadline_seconds ≢ some (negsuc n)
  success_limit :
      p.successful_runs_history_limit ≡ get_or_default spec.successful_runs_history_limit (pos 3)
  failure_limit :
      p.failed_runs_history_limit ≡ get_or_default spec.failed_runs_history_limit (pos 1)
  successes : pos 0 ≤ℤ p.successful_runs_history_limit
  failures : pos 0 ≤ℤ p.failed_runs_history_limit
  suspend : p.suspend ≡ spec.suspend
  deadline :
      (n : ℕ)
      → spec.starting_deadline_seconds ≡ some (pos n)
      → n ≤ 9223372036
      → p.starting_deadline ≡ pos (n * nanos_per_second)
  default_deadline : spec.starting_deadline_seconds ≡ none → p.starting_deadline ≡ pos 60000000000

checked-IsBehind :
    (spec : ScheduleSpec) (zone : Text) (schedule : CronSchedule) (p : Policy)
    → checked spec zone schedule ≡ policy p
    → IsBehind spec zone schedule p
checked-IsBehind spec zone schedule p h = record {
  zone_kept = ground arith;
  schedule_kept = ground arith;
  concurrency = ground arith;
  supported = ground arith;
  counted = λ n e. ground arith;
  success_limit = ground arith;
  failure_limit = ground arith;
  successes = ground arith;
  failures = ground arith;
  suspend = ground arith;
  deadline = λ n e top. ground (arith, seconds_exact n top);
  default_deadline = λ e. ground (arith, seconds_exact 60 (omega arith));
}

behind-IsChecked :
    (lib : CronLibrary) (spec : ScheduleSpec) (schedule : CronSchedule) (p : Policy)
    → has_embedded_time_zone (trim_space spec.expression) ≡ false
    → lib.load_location (or_default_zone spec.time_zone) ≡ true
    → lib.parse_cron (
        text "CRON_TZ=" ++ or_default_zone spec.time_zone ++ text " " ++ trim_space spec.expression)
      ≡ some schedule
    → IsBehind spec (or_default_zone spec.time_zone) schedule p
    → IsChecked lib spec p
behind-IsChecked lib spec schedule p no_zone known cron b = record {
  no_zone = no_zone;
  time_zone = b.zone_kept;
  known_zone = rw b.zone_kept known;
  schedule = rw (b.zone_kept, b.schedule_kept) cron;
  concurrency = b.concurrency;
  supported = b.supported;
  counted = b.counted;
  success_limit = b.success_limit;
  failure_limit = b.failure_limit;
  successes = b.successes;
  failures = b.failures;
  suspend = b.suspend;
  deadline = b.deadline;
  default_deadline = b.default_deadline;
}

-- Where Parse accepts a spec: the trimmed expression has no TZ= or CRON_TZ= of its own, the time zone,
-- Etc/UTC by default, loads, the schedule is what the cron library parses of the two, the concurrency
-- policy is Allow or Forbid, by default Forbid, the deadline of the spec and the two limits, 3 and 1 by
-- default, are not negative, and the policy has the spec's suspend and its deadline in nanoseconds,
-- 60 seconds by default and exact up to 9223372036 seconds.
pub parse-IsChecked :
    (lib : CronLibrary) (spec : ScheduleSpec) (p : Policy)
    → parse lib (some spec) ≡ policy p
    → IsChecked lib spec p
unfolding parse
parse-IsChecked lib spec p h =
    let zone = or_default_zone spec.time_zone in
    let expression = trim_space spec.expression in
    elim (Bool-cases (has_embedded_time_zone expression)) [
      | inl a ↦ absurd (cc (rw a at h))
      | inr a ↦ elim (Bool-cases (lib.load_location zone)) [
        | inr b ↦ absurd (cc (rw (a, b) at h))
        | inl b ↦
            elim (Option-cases
              (lib.parse_cron (text "CRON_TZ=" ++ zone ++ text " " ++ expression))) [
                | inl e ↦ absurd (cc (rw (a, b, e) at h))
                | inr (schedule, e) ↦
                    behind-IsChecked lib spec schedule p a b e
                      (checked-IsBehind spec zone schedule p (rw (a, b, e) at h))
              ]
      ]
    ]

checked-wraps :
    (spec : ScheduleSpec) (zone : Text) (schedule : CronSchedule) (p : Policy) (n : ℕ)
    → checked spec zone schedule ≡ policy p
    → spec.starting_deadline_seconds ≡ some (pos n)
    → 9223372036 < n
    → n ≤ 18446744073
    → (d : ℕ) × (p.starting_deadline ≡ negsuc d)
checked-wraps spec zone schedule p n h e lo hi =
    let (d, w) = seconds_wrapped n lo hi in (d, ground (arith, w))

-- A starting deadline of 9223372037 up to 18446744073 seconds, which Parse accepts, overflows the
-- nanoseconds of a time.Duration: the policy's deadline is negative.
pub parse-wraps :
    (lib : CronLibrary) (spec : ScheduleSpec) (p : Policy) (n : ℕ)
    → parse lib (some spec) ≡ policy p
    → spec.starting_deadline_seconds ≡ some (pos n)
    → 9223372036 < n
    → n ≤ 18446744073
    → (d : ℕ) × (p.starting_deadline ≡ negsuc d)
unfolding parse
parse-wraps lib spec p n h e lo hi =
    elim (Option-cases (
      lib.parse_cron (
        text "CRON_TZ="
        ++ or_default_zone spec.time_zone
        ++ text " "
        ++ trim_space spec.expression))) [
          | inl q ↦ absurd (ground arith)
          | inr (schedule, q) ↦
              checked-wraps spec (or_default_zone spec.time_zone) schedule p n (ground arith) e lo
                hi
        ]
