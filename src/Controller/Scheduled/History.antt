-- ===== src/Controller/Scheduled/History.antt =====
-- internal/controller/agent_scheduled.go: the pruning of completed runs.
use kontext.Prelude.{
  ℕ, zero, suc, Bool, true, false, List, [], ◌∷◌, Option, none, some, Text, text_ltb, text_mem,
  set_add, ltb, ◌==◌, nat_eq, ℤ, pos_part, if◌then◌else◌,
}
use kontext.Api.{Time, after, AgentRun, AgentRunPhase, succeeded, failed, budget_exceeded}
use kontext.Schedule.Policies.{Policy}
use kontext.Schedule.Metadata.{TimeCodec, slot}
use kontext.Controller.Kube.{
  Environment, DeleteReply, delete_failed, prune_failed, Action, pure, raise, ◌>>=◌, delete_run,
}
use kontext.Controller.Scheduled.Runs.{ObservedScheduledRuns, sort_by, summarize_scheduled_runs}

abbrev pub is_succeeded : AgentRunPhase → Bool
is_succeeded succeeded = true
is_succeeded _ = false

abbrev pub is_failed : AgentRunPhase → Bool
is_failed failed = true
is_failed budget_exceeded = true
is_failed _ = false

-- The runs whose phase passes a test, in order.
unfoldable pub with_phase : (AgentRunPhase → Bool) → List AgentRun → List AgentRun
with_phase test [] = []
with_phase test (run ∷ runs) =
    if test run.status.phase then run ∷ with_phase test runs else with_phase test runs

abbrev slot_or : Option Time → Option Time → Time → Time
slot_or (some t) completed created_at = t
slot_or none (some t) created_at = t
slot_or none none created_at = created_at

abbrev pub scheduled_run_sort_time : TimeCodec → AgentRun → Time
scheduled_run_sort_time codec run =
    slot_or (slot codec run) run.status.completion_time run.creation_timestamp

-- Newest first, and by falling names at the same time.
abbrev pub newest_first : TimeCodec → AgentRun → AgentRun → Bool
newest_first codec r s =
    let i = scheduled_run_sort_time codec r in
    let j = scheduled_run_sort_time codec s in if i == j then text_ltb s.name r.name else after i j

unfoldable pub drop_runs : ℕ → List AgentRun → List AgentRun
drop_runs zero runs = runs
drop_runs (suc n) [] = []
drop_runs (suc n) (run ∷ runs) = drop_runs n runs

-- The runs whose names were not deleted.
unfoldable pub retain : List Text → List AgentRun → List AgentRun
retain gone [] = []
retain gone (run ∷ runs) =
    if text_mem run.name gone then retain gone runs else run ∷ retain gone runs

abbrev pub keep_count : ℕ → ObservedScheduledRuns → ObservedScheduledRuns
keep_count count o = record o { max_count = if ltb o.max_count count then count else o.max_count }

module _ (env : Environment) where
  abbrev pub after_delete : Action (List Text) → DeleteReply → Action (List Text)
  after_delete rest delete_failed = raise prune_failed
  after_delete rest _ = rest

  unfoldable pub delete_each : List AgentRun → List Text → Action (List Text)
  delete_each [] gone = pure gone
  delete_each (run ∷ runs) gone =
      delete_run env run >>= after_delete (delete_each runs (set_add run.name gone))

  -- A parsed limit is not negative.
  unfoldable pub prune_scheduled_group : List AgentRun → ℤ → List Text → Action (List Text)
  prune_scheduled_group runs limit gone =
      delete_each (drop_runs (pos_part limit) (sort_by (newest_first env.codec) runs)) gone

  unfoldable pub prune_scheduled_history :
      Policy → ObservedScheduledRuns → Action ObservedScheduledRuns
  prune_scheduled_history policy runs = do
    gone ←
        prune_scheduled_group (with_phase is_succeeded runs.items)
          policy.successful_runs_history_limit []
    gone' ←
        prune_scheduled_group (with_phase is_failed runs.items) policy.failed_runs_history_limit
          gone
    pure (keep_count runs.max_count (summarize_scheduled_runs env.codec (retain gone' runs.items)))
