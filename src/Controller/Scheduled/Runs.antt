-- ===== src/Controller/Scheduled/Runs.antt =====
-- internal/controller/agent_scheduled.go: what is observed of an Agent's runs, and the status made of
-- it. Go's sort.Slice orders runs of different names; the order of equal ones is not specified.
use kontext.Prelude.{
  ℕ, Bool, true, false, ◌&&◌, ◌||◌, not, List, [], ◌∷◌, Option, none, some, Text, text_ltb, map_set,
  ltb, ◌==◌, nat_eq, if◌then◌else◌,
}
use kontext.Api.{Time, after, before, is_zero, Agent, AgentStatus, AgentRun, is_terminal}
use kontext.Schedule.Metadata.{TimeCodec, slot, sequence}
use kontext.Controller.Kube.{Environment, Action, pure, ◌>>=◌}
use kontext.Controller.Service.Observe.{owned_runs}

-- sort.Slice, by insertion.
unfoldable pub insert_by : {A : Type 0} → (A → A → Bool) → A → List A → List A
insert_by less x [] = x ∷ []
insert_by less x (y ∷ ys) = if less y x then y ∷ insert_by less x ys else x ∷ y ∷ ys

unfoldable pub sort_by : {A : Type 0} → (A → A → Bool) → List A → List A
unfolding insert_by
sort_by less [] = []
sort_by less (x ∷ xs) = insert_by less x (sort_by less xs)

pub record ObservedScheduledRuns : Type 0 where
  pub items : List AgentRun
  pub by_slot : List (Text × AgentRun)
  pub latest : Option AgentRun
  pub latest_due : Time
  pub max_count : ℕ
  pub has_active : Bool

abbrev pub by_name : AgentRun → AgentRun → Bool
by_name r s = text_ltb r.name s.name

abbrev pub larger_count : Option ℕ → ℕ → ℕ
larger_count none count = count
larger_count (some n) count = if ltb count n then n else count

abbrev pub is_later : Time → AgentRun → Option AgentRun → Time → Bool
is_later t run none latest_due = true
is_later t run (some latest) latest_due =
    after t latest_due || (t == latest_due && text_ltb latest.name run.name)

abbrev pub note_slot :
    TimeCodec → AgentRun → Option Time → ObservedScheduledRuns → ObservedScheduledRuns
note_slot codec run none o = o
note_slot codec run (some t) o =
    let o' = record o { by_slot = map_set (codec.format t) run o.by_slot } in
    if is_later t run o.latest o.latest_due
    then record o' { latest = some run; latest_due = t }
    else o'

-- The loop's body.
abbrev pub note_run : TimeCodec → AgentRun → ObservedScheduledRuns → ObservedScheduledRuns
note_run codec run o = note_slot codec run (slot codec run) (record o {
  has_active = o.has_active || not (is_terminal run.status.phase);
  max_count = larger_count (sequence run) o.max_count;
})

unfoldable pub note_each : TimeCodec → List AgentRun → ObservedScheduledRuns → ObservedScheduledRuns
note_each codec [] o = o
note_each codec (run ∷ runs) o = note_each codec runs (note_run codec run o)

unfoldable pub summarize_scheduled_runs : TimeCodec → List AgentRun → ObservedScheduledRuns
unfolding sort_by
summarize_scheduled_runs codec items =
    let sorted = sort_by by_name items in
    note_each codec sorted (record {
      items = sorted;
      by_slot = [];
      latest = none;
      latest_due = 0;
      max_count = 0;
      has_active = false;
    })

module _ (env : Environment) where
  unfoldable pub observe_scheduled_runs : Agent → Action ObservedScheduledRuns
  observe_scheduled_runs agent =
      owned_runs env agent >>= λ children. pure (summarize_scheduled_runs env.codec children)

abbrev later_time : Option Time → Time → Option Time
later_time none t = some t
later_time (some u) t = if after t u then some t else some u

abbrev with_latest : Option AgentRun → Time → AgentStatus → AgentStatus
with_latest none t next = next
with_latest (some run) t next = record next {
  last_run_name = run.name;
  last_schedule_time = later_time next.last_schedule_time t;
}

abbrev kept_status : Agent → AgentStatus
kept_status agent = record {
  conditions = [];
  current_run_name = [];
  last_run_name = [];
  runs_created = agent.status.runs_created;
  restarts = 0;
  last_schedule_time = agent.status.last_schedule_time;
  next_schedule_time = agent.status.next_schedule_time;
  observed_generation = agent.generation;
}

-- `none` is a nil pointer.
unfoldable pub scheduled_base_status : Agent → Option ObservedScheduledRuns → AgentStatus
scheduled_base_status agent none = kept_status agent
scheduled_base_status agent (some runs) =
    with_latest runs.latest runs.latest_due (record (kept_status agent) {
      runs_created =
          if ltb agent.status.runs_created runs.max_count
          then runs.max_count
          else agent.status.runs_created;
    })

unfoldable pub recover_scheduled_run_status : AgentStatus → AgentRun → Time → Time → AgentStatus
recover_scheduled_run_status next run t latest_retained_slot = record next {
  runs_created = larger_count (sequence run) next.runs_created;
  last_run_name =
      if is_zero latest_retained_slot || not (before t latest_retained_slot)
      then run.name
      else next.last_run_name;
  last_schedule_time = later_time next.last_schedule_time t;
}
