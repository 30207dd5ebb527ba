-- ===== src/Controller/Scheduled/Retention.antt =====
-- What the pruning of a Scheduled Agent's completed runs deletes.
use kontext.Prelude.{
  ℕ, zero, suc, ◌≡◌, refl, inl, inr, ◌⊎◌, Bool, true, List, [], ◌∷◌, Text, set_add, arith,
  Bool-cases, ℤ, pos_part,
}
use kontext.Api.{AgentRun, AgentRunPhase, is_terminal}
use kontext.Schedule.Policies.{Policy}
use kontext.Controller.Kube.{
  Environment, delete, DeleteReply, deleted, already_gone, delete_failed, History, Outcome, done,
  failed, stuck, Action, pure, raise, carry_on, ◌>>=◌, delete_run,
}
use kontext.Controller.Kube.Writes.{Write, deletes, writes}
use kontext.Controller.Service.Standing.{Elem}
use kontext.Controller.Scheduled.Sorting.{Elem-sort_by}
use kontext.Controller.Scheduled.Runs.{ObservedScheduledRuns, sort_by}
use kontext.Controller.Scheduled.History.{
  is_succeeded, is_failed, with_phase, newest_first, drop_runs, delete_each, prune_scheduled_group,
  prune_scheduled_history, after_delete,
}

-- Nothing but deletions, of runs of `P`.
pub data Deletes (P : AgentRun → Type 0) (ws : List Write) : List Write → Type 0 where
  no_more : Deletes P ws ws
  one_more :
      {ws' : List Write} (run : AgentRun)
      → P run
      → Deletes P ws ws'
      → Deletes P ws (deletes run ∷ ws')

pub Deletes-trans :
    {P : AgentRun → Type 0} {ws ws' ws'' : List Write}
    → Deletes P ws ws'
    → Deletes P ws' ws''
    → Deletes P ws ws''
Deletes-trans d no_more = d
Deletes-trans d (one_more run p e) = one_more run p (Deletes-trans d e)

pub Deletes-more :
    {P Q : AgentRun → Type 0} {ws ws' : List Write}
    → ((run : AgentRun) → P run → Q run)
    → Deletes P ws ws'
    → Deletes Q ws ws'
Deletes-more f no_more = no_more
Deletes-more f (one_more run p d) = one_more run (f run p) (Deletes-more f d)

-- The runs of a filtered or shortened list are among the list's.
Elem-with_phase :
    (test : AgentRunPhase → Bool) (r : AgentRun) (xs : List AgentRun)
    → Elem r (with_phase test xs)
    → Elem r xs × (test r.status.phase ≡ true)
unfolding with_phase
Elem-with_phase test r [] e = elim e [ ]
Elem-with_phase test r (x ∷ xs) e = elim (Bool-cases (test x.status.phase)) [
  | inl b ↦
      let e' : (r ≡ x) ⊎ Elem r (with_phase test xs) = rw b at e in
      elim e' [
        | inl s ↦ (inl s, rw s b)
        | inr e ↦ let (i, t) = Elem-with_phase test r xs e in (inr i, t)
      ]
  | inr b ↦ let (i, t) = Elem-with_phase test r xs (rw b at e) in (inr i, t)
]

Elem-drop_runs : (n : ℕ) (r : AgentRun) (xs : List AgentRun) → Elem r (drop_runs n xs) → Elem r xs
unfolding drop_runs
Elem-drop_runs zero r xs e = e
Elem-drop_runs (suc n) r [] e = elim e [ ]
Elem-drop_runs (suc n) r (x ∷ xs) e = inr (Elem-drop_runs n r xs e)

module _ (env : Environment) where
  after-Deletes :
      (P : AgentRun → Type 0) (run : AgentRun) (rest : Action (List Text)) (h : History)
      (reply : DeleteReply)
      → P run
      → ((h' : History) → Deletes P (writes h') (writes (rest h').1))
      → Deletes P (writes h) (writes (after_delete env rest reply (delete run reply ∷ h)).1)
  unfolding writes raise
  after-Deletes P run rest h delete_failed p more = one_more run p no_more
  after-Deletes P run rest h deleted p more =
      Deletes-trans (one_more run p no_more) (more (delete run deleted ∷ h))
  after-Deletes P run rest h already_gone p more =
      Deletes-trans (one_more run p no_more) (more (delete run already_gone ∷ h))

  delete_each-Deletes :
      (P : AgentRun → Type 0) (runs : List AgentRun) (gone : List Text) (h : History)
      → ((r : AgentRun) → Elem r runs → P r)
      → Deletes P (writes h) (writes (delete_each env runs gone h).1)
  unfolding delete_each pure ◌>>=◌ delete_run
  delete_each-Deletes P [] gone h all = no_more
  delete_each-Deletes P (run ∷ runs) gone h all =
      after-Deletes P run (delete_each env runs (set_add run.name gone)) h (env.delete_run h run)
        (all run (inl refl))
        (λ h'. delete_each-Deletes P runs (set_add run.name gone) h' (λ r e. all r (inr e)))

  -- A completed run of the list.
  abbrev pub Completed : List AgentRun → AgentRun → Type 0
  Completed runs r = Elem r runs × (is_terminal r.status.phase ≡ true)

  group-Deletes :
      (test : AgentRunPhase → Bool) (runs : List AgentRun) (limit : ℤ) (gone : List Text)
      (h : History)
      → ((phase : AgentRunPhase) → test phase ≡ true → is_terminal phase ≡ true)
      → Deletes
          (Completed runs)
          (writes h)
          (writes (prune_scheduled_group env (with_phase test runs) limit gone h).1)
  unfolding prune_scheduled_group
  group-Deletes test runs limit gone h ends =
      delete_each-Deletes (Completed runs)
        (drop_runs (pos_part limit) (sort_by (newest_first env.codec) (with_phase test runs))) gone
        h
        (λ r e.
          let (i, t) = Elem-with_phase test r runs (
            Elem-sort_by (newest_first env.codec) r (with_phase test runs)
              (Elem-drop_runs (pos_part limit) r _ e)) in
          (i, ends r.status.phase t))

  bind-Deletes :
      {A B : Type 0} (P : AgentRun → Type 0) (m : Action A) (f : A → Action B) (h : History)
      → Deletes P (writes h) (writes (m h).1)
      → ((a : A) (h' : History) → Deletes P (writes h') (writes (f a h').1))
      → Deletes P (writes h) (writes ((m >>= f) h).1)
  unfolding ◌>>=◌
  bind-Deletes P m f h d k = Deletes-trans d (carried (m h).0 (m h).1)
    where
      carried : (o : Outcome _) (h' : History) → Deletes P (writes h') (writes (carry_on f o h').1)
      carried (done a) h' = k a h'
      carried (failed e) h' = no_more
      carried stuck h' = no_more

  succeeded_ends : (phase : AgentRunPhase) → is_succeeded phase ≡ true → is_terminal phase ≡ true
  succeeded_ends phase e = ground arith

  failed_ends : (phase : AgentRunPhase) → is_failed phase ≡ true → is_terminal phase ≡ true
  failed_ends phase e = ground arith

  -- However it ends, pruning only deletes, and only runs of the list that have completed.
  pub prune_scheduled_history-Deletes :
      (p : Policy) (runs : ObservedScheduledRuns) (h : History)
      → Deletes (Completed runs.items) (writes h) (writes (prune_scheduled_history env p runs h).1)
  unfolding prune_scheduled_history pure
  prune_scheduled_history-Deletes p runs h =
      bind-Deletes _ _ _ h
        (group-Deletes is_succeeded runs.items p.successful_runs_history_limit [] h succeeded_ends)
        λ gone h'.
          bind-Deletes _ _ _ h'
            (group-Deletes is_failed runs.items p.failed_runs_history_limit gone h' failed_ends)
            λ gone' h''. no_more
