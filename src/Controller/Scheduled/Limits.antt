-- ===== src/Controller/Scheduled/Limits.antt =====
-- How many completed runs of a Scheduled Agent are kept.
use kontext.Prelude.{
  ℕ, zero, suc, ◌≤◌, ◌≡◌, refl, ap, ◌∙◌, inl, inr, Bool, true, false, ◌&&◌, ◌||◌, not, List, [],
  ◌∷◌, Option, none, some, Text, set_add, text_mem, arith, Bool-cases, ℤ, pos_part, list_eq, nat_eq,
  beq_refl, if◌then◌else◌,
}
use mathlib.Core.Path.{subst}
use kontext.Schedule.Metadata.{slot, sequence}
use kontext.Api.{Time, AgentRun, AgentRunPhase, is_terminal}
use kontext.Schedule.Policies.{Policy}
use kontext.Controller.Kube.{
  Environment, delete, DeleteReply, deleted, already_gone, delete_failed, History, done, done-bind,
  Action, pure, raise, ◌>>=◌, delete_run,
}
use kontext.Controller.Service.Standing.{Elem}
use kontext.Controller.Scheduled.Sorting.{count_if, count, count-sort_by}
use kontext.Controller.Scheduled.Runs.{
  ObservedScheduledRuns, sort_by, summarize_scheduled_runs, note_each, note_run, note_slot, by_name,
  larger_count,
}
use kontext.Controller.Scheduled.History.{
  is_succeeded, is_failed, with_phase, newest_first, drop_runs, delete_each, prune_scheduled_group,
  prune_scheduled_history, after_delete, retain, keep_count,
}

-- Of a list whose runs behind the first n fail a test, at most n pass it.
count-drop_runs :
    (t : AgentRun → Bool) (n : ℕ) (xs : List AgentRun)
    → ((r : AgentRun) → Elem r (drop_runs n xs) → t r ≡ false)
    → count t xs ≤ n
unfolding drop_runs
count-drop_runs t n [] all = omega arith
count-drop_runs t zero (x ∷ xs) all =
    rw (all x (inl refl)) (count-drop_runs t zero xs (λ r e. all r (inr e)))
count-drop_runs t (suc n) (x ∷ xs) all = let ih = count-drop_runs t n xs all in ground (arith, ih)

count-with_phase :
    (test : AgentRunPhase → Bool) (t : AgentRun → Bool) (xs : List AgentRun)
    → count t (with_phase test xs) ≡ count (λ r. test r.status.phase && t r) xs
unfolding with_phase
count-with_phase test t [] = refl
count-with_phase test t (x ∷ xs) = elim (Bool-cases (test x.status.phase)) [
  | inl b ↦ rw b (ap (count_if (t x)) (count-with_phase test t xs))
  | inr b ↦ rw b (count-with_phase test t xs)
]

abbrev kept : List Text → AgentRun → Bool
kept gone r = not (text_mem r.name gone)

count-retain :
    (t : AgentRun → Bool) (gone : List Text) (xs : List AgentRun)
    → count t (retain gone xs) ≡ count (λ r. t r && kept gone r) xs
unfolding retain
count-retain t gone [] = refl
count-retain t gone (x ∷ xs) = elim (Bool-cases (text_mem x.name gone)) [
  | inl b ↦ rw b (ground (arith, count-retain t gone xs))
  | inr b ↦ rw b (ground (arith, count-retain t gone xs))
]

-- Names are only added to the set, and a deleted run's name is in it.
abbrev Contains : List Text → List Text → Type 0
Contains small large = (n : Text) → text_mem n small ≡ true → text_mem n large ≡ true

set_add-has : (n : Text) (xs : List Text) → text_mem n (set_add n xs) ≡ true
unfolding set_add text_mem
set_add-has n xs = elim (Bool-cases (text_mem n xs)) [
  | inl b ↦ rw b b
  | inr b ↦ rw b (rw (beq_refl n))
]

set_add-Contains : (m : Text) (xs : List Text) → Contains xs (set_add m xs)
unfolding set_add text_mem
set_add-Contains m xs n h = elim (Bool-cases (text_mem m xs)) [
  | inl b ↦ rw b h
  | inr b ↦ rw (b, h) (ground arith)
]

count_more :
    (t u : AgentRun → Bool) (xs : List AgentRun)
    → ((r : AgentRun) → t r ≡ true → u r ≡ true)
    → count t xs ≤ count u xs
count_more t u [] f = omega arith
count_more t u (x ∷ xs) f = ground (arith, count_more t u xs f, f x)

module _ (env : Environment) where
  record Gone (runs : List AgentRun) (gone gone' : List Text) : Type 0 where
    more : Contains gone gone'
    all : (r : AgentRun) → Elem r runs → text_mem r.name gone' ≡ true

  more-Gone :
      (run : AgentRun) (runs : List AgentRun) (gone gone' : List Text)
      → Gone runs (set_add run.name gone) gone'
      → Gone (run ∷ runs) gone gone'
  more-Gone run runs gone gone' g = record {
    more = λ n h. g.more n (set_add-Contains run.name gone n h);
    all = λ r e. elim e [
      | inl s ↦ rw s (g.more run.name (set_add-has run.name gone))
      | inr e ↦ g.all r e
    ];
  }

  -- Had a deletion failed, the loop would have ended with its error.
  after-done :
      (rest : Action (List Text)) (reply : DeleteReply) (h : History) (gone' : List Text)
      → (after_delete env rest reply h).0 ≡ done gone'
      → (rest h).0 ≡ done gone'
  unfolding raise
  after-done rest delete_failed h gone' e = absurd (cc e)
  after-done rest deleted h gone' e = e
  after-done rest already_gone h gone' e = e

  delete_each-Gone :
      (runs : List AgentRun) (gone gone' : List Text) (h : History)
      → (delete_each env runs gone h).0 ≡ done gone'
      → Gone runs gone gone'
  unfolding delete_each pure ◌>>=◌ delete_run
  delete_each-Gone [] gone gone' h e =
      let same : gone ≡ gone' = ground arith in
      record { more = λ n m. rw (← same) m; all = λ r b. absurd b }
  delete_each-Gone (run ∷ runs) gone gone' h e =
      let reply = env.delete_run h run in
      more-Gone run runs gone gone' (
        delete_each-Gone runs (set_add run.name gone) gone' (delete run reply ∷ h) (
          after-done (delete_each env runs (set_add run.name gone)) reply (delete run reply ∷ h)
            gone' e))

  group-Gone :
      (test : AgentRunPhase → Bool) (runs : List AgentRun) (limit : ℤ) (gone gone' : List Text)
      (h : History)
      → (prune_scheduled_group env (with_phase test runs) limit gone h).0 ≡ done gone'
      → Contains gone gone'
        × (count (λ r. test r.status.phase && kept gone' r) runs ≤ pos_part limit)
  unfolding prune_scheduled_group
  group-Gone test runs limit gone gone' h e =
      let sorted = sort_by (newest_first env.codec) (with_phase test runs) in
      let g = delete_each-Gone (drop_runs (pos_part limit) sorted) gone gone' h e in
      (
        g.more,
        rw (← (count-with_phase test (kept gone') runs)) (
            rw (← (count-sort_by (newest_first env.codec) (kept gone') (with_phase test runs)))
              (count-drop_runs (kept gone') (pos_part limit) sorted (λ r i. rw (g.all r i)))),
      )

  if-items :
      (b : Bool) (o o' : ObservedScheduledRuns) (items : List AgentRun)
      → o.items ≡ items
      → o'.items ≡ items
      → (if b then o else o').items ≡ items
  if-items true o o' items e e' = e
  if-items false o o' items e e' = e'

  note_slot-items :
      (run : AgentRun) (t : Option Time) (o : ObservedScheduledRuns)
      → (note_slot env.codec run t o).items ≡ o.items
  note_slot-items run none o = refl
  note_slot-items run (some t) o = if-items _ _ _ o.items refl refl

  pub note_each-items :
      (runs : List AgentRun) (o : ObservedScheduledRuns)
      → (note_each env.codec runs o).items ≡ o.items
  unfolding note_each
  note_each-items [] o = refl
  note_each-items (run ∷ runs) o =
      note_each-items runs (note_run env.codec run o)
      ∙ note_slot-items run (slot env.codec run) (record o {
        has_active = o.has_active || not (is_terminal run.status.phase);
        max_count = larger_count (sequence run) o.max_count;
      })

  pub done_same : {A : Type 0} (a b : A) (h : History) → (pure a h).0 ≡ done b → a ≡ b
  unfolding pure
  done_same a b h e = cc e

  -- What is counted of the runs that are kept was counted of the list.
  counted :
      (test : AgentRunPhase → Bool) (n : ℕ) (gone : List Text) (xs : List AgentRun)
      → count
          (λ r. test r.status.phase)
          (keep_count n (summarize_scheduled_runs env.codec (retain gone xs))).items
        ≡ count (λ r. test r.status.phase && kept gone r) xs
  unfolding summarize_scheduled_runs
  counted test n gone xs =
      ap (count (λ r. test r.status.phase)) (note_each-items (sort_by by_name (retain gone xs)) _)
      ∙ count-sort_by by_name (λ r. test r.status.phase) (retain gone xs)
      ∙ count-retain (λ r. test r.status.phase) gone xs

  abbrev Within : Policy → ObservedScheduledRuns → Type 0
  Within p o =
      (count (λ r. is_succeeded r.status.phase) o.items ≤ pos_part p.successful_runs_history_limit)
      × (count (λ r. is_failed r.status.phase) o.items ≤ pos_part p.failed_runs_history_limit)

  retained-Within :
      (p : Policy) (runs : ObservedScheduledRuns) (gone gone' : List Text) (h h' : History)
      → (prune_scheduled_group env
          (with_phase is_succeeded runs.items)
          p.successful_runs_history_limit
          []
          h).0
        ≡ done gone
      → (prune_scheduled_group env
          (with_phase is_failed runs.items)
          p.failed_runs_history_limit
          gone
          h').0
        ≡ done gone'
      → Within p
          (keep_count runs.max_count (summarize_scheduled_runs env.codec (retain gone' runs.items)))
  retained-Within p runs gone gone' h h' e1 e2 =
      let (_, few) =
        group-Gone is_succeeded runs.items p.successful_runs_history_limit [] gone h e1 in
      let (more, few') =
        group-Gone is_failed runs.items p.failed_runs_history_limit gone gone' h' e2 in
      (
        rw (counted is_succeeded runs.max_count gone' runs.items) (
            omega (
              arith,
              few,
              count_more (λ r. is_succeeded r.status.phase && kept gone' r)
                  (λ r. is_succeeded r.status.phase && kept gone r) runs.items
                  (λ r k. ground (arith, more r.name)),
            )),
        rw (counted is_failed runs.max_count gone' runs.items) few',
      )

  -- A pruning that ends without an error keeps at most as many succeeded runs as the policy's
  -- successful limit says, and at most as many failed ones, those over budget included, as its
  -- failed limit says.
  pub prune_scheduled_history-limits :
      (p : Policy) (runs o : ObservedScheduledRuns) (h : History)
      → (prune_scheduled_history env p runs h).0 ≡ done o
      → Within p o
  unfolding prune_scheduled_history
  prune_scheduled_history-limits p runs o h e =
      let (gone, e1, rest) = done-bind _ _ h o e in
      let (gone', e2, last) = done-bind _ _ _ o rest in
      subst (Within p) (done_same _ o _ last) (retained-Within p runs gone gone' h _ e1 e2)
