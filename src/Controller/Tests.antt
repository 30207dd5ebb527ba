-- ===== src/Controller/Tests.antt =====
-- Runs of the Service and Task reconcilers.
use kontext.Prelude.{
  strip_prefix, parse_int32, show_int, show_nat, list_beq, ◌*◌, ◌^◌, ◌-◌, ◌≤◌, ◌≡◌, ◌↔◌, refl, min,
  [], ◌∷◌, List, Option, none, some, text, length, pos, arith, max_int32,
}
use kontext.Api.{AgentRun, succeeded, running, nanos_per_second}
use kontext.RunFactory.Resolve.{new_for_agent, owned, new_meta, new_spec}
use kontext.RunFactory.Resolve.Names.{standing_name}
use kontext.Controller.Kube.Writes.{creates, Changes, writes, Quiet}
use kontext.Controller.Service.{reconcile_service}
use kontext.Controller.Service.Suffix.{service_run_suffix, service_run_suffix_iff}
use kontext.Controller.Service.Observe.{
  ObservedServiceRuns, observe_each, rank, standing_suffix, observe,
}
use kontext.Controller.Service.Backoff.{backoff_delay, backoff_delay_exact}
use kontext.Controller.Service.Standing.{Elem, IsObserved, observe-IsObserved}
use kontext.Controller.Service.Safety.{Next, Due}
use kontext.Controller.Service.Progress.{reconcile_service-creates}
use kontext.Controller.Service.Minting.{IsMinted, reconcile_service-mints}
use kontext.Controller.Task.{newest_each, reconcile_task}
use kontext.Controller.Task.Idle.{NoneNewer, Chosen, newest_each-finds, reconcile_task-Quiet}
use kontext.Fixtures.{owner, service_agent, task_agent, run_of, server}

abbrev two_runs : List AgentRun
two_runs = run_of (text "a-1") succeeded ∷ run_of (text "a-2") running ∷ []

reconcile_service_example :
    Changes
      (writes [])
      (IsMinted server service_agent [])
      (writes (reconcile_service server service_agent []).1)
reconcile_service_example = reconcile_service-mints server service_agent []

observe_example : IsObserved (text "a") two_runs (observe (text "a") two_runs)
observe_example = observe-IsObserved (text "a") two_runs

service_run_suffix_example :
    (service_run_suffix (text "a") (text "a-2") ≡ some 2)
    ↔ ((1 ≤ 2) × (2 ≤ max_int32) × (text "a-2" ≡ standing_name (text "a") 2))
service_run_suffix_example = service_run_suffix_iff (text "a") (text "a-2") 2

backoff_delay_example :
    backoff_delay none (pos 3)
    ≡ pos (min (5 * nanos_per_second * 2 ^ (3 - 1)) (60 * nanos_per_second))
backoff_delay_example = backoff_delay_exact none 5 60 3 refl refl (omega arith) (omega arith)

newest_each_example :
    (newest : Option AgentRun) × (newest_each two_runs none 0 ≡ some (newest, length two_runs))
    × Chosen two_runs newest
    × ((r : AgentRun) → Elem r two_runs → NoneNewer r newest)
newest_each_example = newest_each-finds two_runs (omega arith)

reconcile_task_example : Quiet (reconcile_task server task_agent)
reconcile_task_example = reconcile_task-Quiet server task_agent

-- The server lists the finished run a-1, and the next run is a-2.
abbrev listing : List AgentRun
listing = run_of (text "a-1") succeeded ∷ run_of (text "other") running ∷ []

abbrev second : AgentRun
second = owned (new_meta service_agent (text "a-2")) (new_spec service_agent (text "serve")) owner

abbrev first_seen : ObservedServiceRuns
first_seen = record {
  current = some (run_of (text "a-1") succeeded);
  previous = none;
  max_suffix = 1;
}

listing-observe : observe (text "a") listing ≡ first_seen
unfolding observe observe_each rank standing_suffix service_run_suffix strip_prefix parse_int32
    show_int list_beq
listing-observe = refl

second-Next : Next server service_agent (observe (text "a") listing) second
unfolding new_for_agent show_nat
second-Next = rw listing-observe (record { room = λ e. absurd (cc e); built = refl })

first-Due :
    Due server service_agent
      (observe (text "a") listing)
      61000000000
      (observe (text "a") listing).current
first-Due = rw listing-observe (refl, λ t e. absurd (cc e))

reconcile_service-creates_example :
    writes (reconcile_service server service_agent []).1 ≡ creates second ∷ []
unfolding writes
reconcile_service-creates_example =
    reconcile_service-creates server service_agent [] listing second (λ e. absurd (cc e))
      (λ e. absurd (cc e)) refl first-Due second-Next
