-- ===== src/Controller/Scheduled/Tests.antt =====
-- Runs of the Scheduled reconciler.
use kontext.Prelude.{
  ◌+◌, ◌/◌, ◌*◌, ◌≤◌, ◌≡◌, refl, inl, inr, [], ◌∷◌, false, text, pos, pos_part, text_ltb, text_mem,
  set_add, map_get, read_nat, parse_int32, list_beq,
}
use kontext.Api.{succeeded, running, forbid}
use kontext.Schedule.Policies.{Policy}
use kontext.Schedule.Metadata.{slot, sequence}
use kontext.Controller.Kube.{done, delete_run, pure, ◌>>=◌}
use kontext.Controller.Kube.Writes.{writes}
use kontext.Controller.Scheduled.{reconcile_scheduled}
use kontext.Controller.Scheduled.Runs.{
  ObservedScheduledRuns, summarize_scheduled_runs, sort_by, note_each,
}
use kontext.Controller.Scheduled.History.{
  is_succeeded, is_failed, prune_scheduled_history, prune_scheduled_group, delete_each, drop_runs,
  with_phase, retain,
}
use kontext.Controller.Scheduled.Retention.{Deletes, Completed, prune_scheduled_history-Deletes}
use kontext.Controller.Scheduled.Sorting.{count}
use kontext.Controller.Scheduled.Limits.{prune_scheduled_history-limits}
use kontext.Controller.Scheduled.Launching.{
  Owned, IsLaunched, Replaces, reconcile_scheduled-launches,
}
use kontext.Controller.Scheduled.Summary.{IsSummarized, summarize_scheduled_runs-IsSummarized}
use kontext.Fixtures.{scheduled_agent, run_of, server, codec}

abbrev keep_one : Policy
keep_one = record {
  schedule = λ now. (now / 60000000000 + 1) * 60000000000;
  time_zone = text "Etc/UTC";
  concurrency_policy = forbid;
  starting_deadline = pos 60000000000;
  suspend = false;
  successful_runs_history_limit = pos 1;
  failed_runs_history_limit = pos 0;
}

abbrev three_runs : ObservedScheduledRuns
three_runs = summarize_scheduled_runs codec (
    run_of (text "a-1") succeeded
    ∷ run_of (text "a-2") succeeded
    ∷ run_of (text "a-3") running
    ∷ [])

abbrev two_kept : ObservedScheduledRuns
two_kept =
    summarize_scheduled_runs codec
      (run_of (text "a-2") succeeded ∷ run_of (text "a-3") running ∷ [])

three_runs-prune : (prune_scheduled_history server keep_one three_runs []).0 ≡ done two_kept
unfolding prune_scheduled_history prune_scheduled_group delete_each drop_runs with_phase retain
    delete_run pure ◌>>=◌ sort_by summarize_scheduled_runs text_ltb text_mem set_add note_each slot
    sequence map_get read_nat parse_int32 list_beq
three_runs-prune = refl

reconcile_scheduled_example :
    Replaces
      (writes [])
      (Owned server scheduled_agent [])
      (IsLaunched server scheduled_agent [])
      (writes (reconcile_scheduled server scheduled_agent []).1)
reconcile_scheduled_example = reconcile_scheduled-launches server scheduled_agent []

prune_Deletes_example :
    Deletes
      (Completed server three_runs.items)
      (writes [])
      (writes (prune_scheduled_history server keep_one three_runs []).1)
prune_Deletes_example = prune_scheduled_history-Deletes server keep_one three_runs []

prune_limits_example :
    (count (λ r. is_succeeded r.status.phase) two_kept.items
      ≤ pos_part keep_one.successful_runs_history_limit)
    × (count (λ r. is_failed r.status.phase) two_kept.items
        ≤ pos_part keep_one.failed_runs_history_limit)
prune_limits_example =
    prune_scheduled_history-limits server keep_one three_runs two_kept [] three_runs-prune

summarize_example : IsSummarized codec two_kept (run_of (text "a-3") running)
summarize_example =
    summarize_scheduled_runs-IsSummarized codec
      (run_of (text "a-2") succeeded ∷ run_of (text "a-3") running ∷ [])
      (run_of (text "a-3") running) (inr (inl refl))
