-- ===== src/Controller/Scheduled/Exclusive.antt =====
-- What a scheduled run that is created shares its slot and its Agent with.
use kontext.Prelude.{ℕ, ◌≤◌, ◌≡◌, ◌≢◌, ap, true, List, some, ltb, arith, map_get, if◌then◌else◌}
use mathlib.Core.Path.{subst}
use kontext.Api.{Time, forbid, Agent, AgentRun, is_terminal}
use kontext.Schedule.Policies.{Policy}
use kontext.Schedule.Metadata.{slot}
use kontext.Controller.Kube.{Environment, History, done, done-bind}
use kontext.Controller.Service.Standing.{Elem}
use kontext.Controller.Scheduled.Runs.{
  ObservedScheduledRuns, summarize_scheduled_runs, sort_by, by_name,
}
use kontext.Controller.Scheduled.History.{prune_scheduled_history, retain, keep_count}
use kontext.Controller.Scheduled.Sorting.{Elem-sort_by}
use kontext.Controller.Scheduled.Limits.{note_each-items, done_same}
use kontext.Controller.Scheduled.Summary.{IsSummarized, summarize_scheduled_runs-IsSummarized}
use kontext.Controller.Scheduled.Launching.{IsLaunched}

module _ (env : Environment) where
  -- The summary of the runs that are kept says of each of its items what a summary says.
  kept-IsSummarized :
      (n : ℕ) (runs : List AgentRun) (r : AgentRun)
      → let o = keep_count n (summarize_scheduled_runs env.codec runs) in
        Elem r o.items → IsSummarized env.codec o r
  unfolding summarize_scheduled_runs
  kept-IsSummarized n runs r i =
      let here : Elem r (sort_by by_name runs) =
        rw (note_each-items env (sort_by by_name runs) _) at i in
      let s =
        summarize_scheduled_runs-IsSummarized env.codec runs r (Elem-sort_by by_name r runs here) in
      record {
        ended = s.ended;
        counted = λ m e. grown _ n m (s.counted m e);
        slotted = s.slotted;
        held = s.held;
      }
    where
      grown : (a n m : ℕ) → m ≤ a → m ≤ (if ltb a n then n else a)
      grown a n m le = ground (arith, le)

  pruned-IsSummarized :
      (p : Policy) (runs o : ObservedScheduledRuns) (h : History)
      → (prune_scheduled_history env p runs h).0 ≡ done o
      → (r : AgentRun) → Elem r o.items
      → IsSummarized env.codec o r
  unfolding prune_scheduled_history
  pruned-IsSummarized p runs o h e =
      let (gone, e1, rest) = done-bind _ _ h o e in
      let (gone', e2, last) = done-bind _ _ _ o rest in
      subst (λ o. (r : AgentRun) → Elem r o.items → IsSummarized env.codec o r)
        (done_same env _ o _ last)
        (λ r i. kept-IsSummarized runs.max_count (retain gone' runs.items) r i)

  module _ (agent : Agent) (h : History) (run : AgentRun) (l : IsLaunched env agent h run) where
    retained-IsSummarized :
        (r : AgentRun) → Elem r l.retained.items → IsSummarized env.codec l.retained r
    retained-IsSummarized =
        pruned-IsSummarized l.parsed (summarize_scheduled_runs env.codec l.children) l.retained _
          l.pruned

    -- When a scheduled run is created, no retained run is stamped with its slot.
    pub slot-unshared :
        (r : AgentRun) (t : Time)
        → Elem r l.retained.items
        → slot env.codec r ≡ some t
        → env.codec.format t ≢ env.codec.format l.scheduled.slot.due
    slot-unshared r t i e q =
        let (other, held) = IsSummarized.held (retained-IsSummarized r i) t e in
        cc (l.scheduled.slot.free.0, held, ap (λ k. map_get k l.retained.by_slot) q)

    -- When a scheduled run is created under the policy Forbid, every retained run is terminal.
    pub forbid-alone :
        (r : AgentRun)
        → l.parsed.concurrency_policy ≡ forbid
        → Elem r l.retained.items
        → is_terminal r.status.phase ≡ true
    forbid-alone r f i = IsSummarized.ended (retained-IsSummarized r i) (l.scheduled.slot.free.1 f)
