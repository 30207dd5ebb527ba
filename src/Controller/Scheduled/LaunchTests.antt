-- ===== src/Controller/Scheduled/LaunchTests.antt =====
-- A run of the Scheduled reconciler that creates the run of a due slot: the status waits for the
-- slot at 60 s, it is 61 s, and the only owned run has finished.
use kontext.Prelude.{
  true, inl, ◌+◌, ◌≡◌, refl, [], ◌∷◌, List, false, none, some, text, map_get, read_nat, parse_int32,
  list_beq, text_ltb, text_mem, set_add,
}
use kontext.Api.{is_terminal, AgentRun, succeeded, sub_time}
use kontext.RunFactory.Resolve.{new_for_agent, owned, new_meta, new_spec}
use kontext.Schedule.Policies.Tests.{minutely_policy, minutely-parse}
use kontext.Schedule.Slots.{latest_due, advance}
use kontext.Schedule.RunNames.{run_name}
use kontext.Schedule.Metadata.{slot, sequence, set_metadata}
use kontext.Controller.Kube.{Environment, done, pure, ◌>>=◌, read_clock, listed}
use kontext.Controller.Kube.Writes.{Write, creates, writes}
use kontext.Controller.Scheduled.{reconcile_scheduled}
use kontext.Controller.Scheduled.Runs.{
  ObservedScheduledRuns, summarize_scheduled_runs, scheduled_base_status, sort_by, note_each,
}
use kontext.Controller.Scheduled.History.{
  prune_scheduled_history, prune_scheduled_group, delete_each, drop_runs, with_phase, retain,
}
use kontext.Controller.Scheduled.Retention.{Deletes}
use kontext.Controller.Scheduled.Safety.{IsRunOf, IsDue}
use kontext.Controller.Scheduled.Launching.{Owned, IsLaunched}
use kontext.Controller.Scheduled.Progress.{reconcile_scheduled-creates}
use kontext.Controller.Scheduled.Exclusive.{forbid-alone}
use kontext.Fixtures.{scheduled_agent, run_of, server, codec, owner}

abbrev children : List AgentRun
children = run_of (text "a-1") succeeded ∷ []

abbrev quiet_server : Environment
quiet_server = record server { list_owned = λ h ns uid. some children }

abbrev retained : ObservedScheduledRuns
retained = record {
  items = children;
  by_slot = [];
  latest = none;
  latest_due = 0;
  max_count = 0;
  has_active = false;
}

abbrev base : AgentRun
base =
    owned (new_meta scheduled_agent (run_name (λ name. text "0123abcd") (text "a") 60000000000))
      (new_spec scheduled_agent (text "tidy")) owner

abbrev launched : AgentRun
launched = set_metadata codec base 60000000000 1

children-prune :
    (prune_scheduled_history quiet_server minutely_policy
      (summarize_scheduled_runs codec children)
      (listed (text "default") (text "uid") ∷ read_clock 61000000000 ∷ [])).0
    ≡ done retained
unfolding prune_scheduled_history prune_scheduled_group delete_each drop_runs with_phase retain pure
    ◌>>=◌ sort_by summarize_scheduled_runs note_each slot sequence map_get read_nat parse_int32
    list_beq text_ltb text_mem set_add
children-prune = refl

launched-IsRunOf :
    IsRunOf quiet_server scheduled_agent 61000000000 minutely_policy retained 60000000000
      (scheduled_base_status scheduled_agent (some retained)).runs_created
      launched
unfolding new_for_agent scheduled_base_status
launched-IsRunOf = record { room = λ e. absurd (cc e); base = base; built = refl; stamped = refl }

launched-IsDue :
    IsDue quiet_server scheduled_agent 61000000000 minutely_policy retained
      (scheduled_base_status scheduled_agent (some retained)).runs_created
      (latest_due (61000000000 + 2) minutely_policy.schedule 60000000000 61000000000)
      launched
unfolding latest_due advance sub_time map_get
launched-IsDue = record {
  due = 60000000000;
  next = 120000000000;
  latest = refl;
  is_due = λ e. absurd (cc e);
  in_time = refl;
  free = (refl, λ f. refl);
  run_of = launched-IsRunOf;
}

abbrev launch : IsLaunched quiet_server scheduled_agent [] launched
launch = record {
  children = children;
  listing = refl;
  parsed = minutely_policy;
  valid = minutely-parse;
  retained = retained;
  pruned = children-prune;
  scheduled = record {
    observed = refl;
    active = refl;
    first = 60000000000;
    expected = refl;
    slot = launched-IsDue;
  };
}

reconcile_scheduled-creates_example :
    (mid : List Write) × Deletes (Owned quiet_server scheduled_agent []) (writes []) mid
    × (writes (reconcile_scheduled quiet_server scheduled_agent []).1 ≡ creates launched ∷ mid)
reconcile_scheduled-creates_example =
    reconcile_scheduled-creates quiet_server scheduled_agent [] launched (λ e. absurd (cc e)) launch

forbid-alone_example : is_terminal (run_of (text "a-1") succeeded).status.phase ≡ true
forbid-alone_example =
    forbid-alone quiet_server scheduled_agent [] launched launch (run_of (text "a-1") succeeded)
      refl (inl refl)
