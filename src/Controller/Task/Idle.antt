-- ===== src/Controller/Task/Idle.antt =====
-- What the Task reconciler reports, and what it changes.
use kontext.Prelude.{
  ℕ, ◌+◌, ◌≤◌, ◌≡◌, refl, ap, ◌∙◌, inl, inr, ◌⊎◌, true, false, List, [], ◌∷◌, Option, none, some,
  length, arith, Bool-cases, ◌==◌, nat_eq, max_int32, if◌then◌else◌,
}
use kontext.Api.{Agent, AgentRun}
use kontext.Controller.Kube.{Environment, too_many_runs}
use kontext.Controller.Kube.Writes.{
  Quiet, Quiet-bind, Quiet-then, Quiet-if, Quiet-pure, Quiet-raise, Quiet-list_runs,
}
use kontext.Controller.Status.{set_agent_status-Quiet}
use kontext.Controller.Service.Observe.{owned_runs}
use kontext.Controller.Service.Standing.{Elem}
use kontext.Controller.Task.{is_newer, newest_each, report_task, reconcile_task}

-- No run was created after the newest one.
abbrev pub NoneNewer : AgentRun → Option AgentRun → Type 0
NoneNewer r none = ⊥
NoneNewer r (some newest) = r.creation_timestamp ≤ newest.creation_timestamp

-- The newest of no runs is none, and otherwise a run of the list.
abbrev pub Chosen : List AgentRun → Option AgentRun → Type 0
Chosen runs none = runs ≡ []
Chosen runs (some newest) = Elem newest runs

abbrev better : AgentRun → Option AgentRun → Option AgentRun
better run newest = if is_newer run newest then some run else newest

better-here : (run : AgentRun) (newest : Option AgentRun) → NoneNewer run (better run newest)
better-here run none = omega arith
better-here run (some n) = elim (Bool-cases (is_newer run (some n))) [
  | inl b ↦ rw b (omega arith)
  | inr b ↦ rw b (ground arith)
]

better-keeps :
    (run r : AgentRun) (newest : Option AgentRun)
    → NoneNewer r newest
    → NoneNewer r (better run newest)
better-keeps run r none b = absurd b
better-keeps run r (some n) le = elim (Bool-cases (is_newer run (some n))) [
  | inl b ↦ rw b (ground arith)
  | inr b ↦ rw b le
]

better_is : (run : AgentRun) (o : Option AgentRun) → is_newer run o ≡ true → better run o ≡ some run
better_is run o b = rw b

better_not : (run : AgentRun) (o : Option AgentRun) → is_newer run o ≡ false → better run o ≡ o
better_not run o b = rw b

-- The loop on the runs that are left.
record Found (runs : List AgentRun) (start : Option AgentRun) (retained : ℕ) : Type 0 where
  newest : Option AgentRun
  result : newest_each runs start retained ≡ some (newest, retained + length runs)
  keeps : (r : AgentRun) → NoneNewer r start → NoneNewer r newest
  covers : (r : AgentRun) → Elem r runs → NoneNewer r newest
  from : (newest ≡ start) ⊎ ((r : AgentRun) × (newest ≡ some r) × Elem r runs)

found :
    (runs : List AgentRun) (start : Option AgentRun) (retained : ℕ)
    → retained + length runs ≤ max_int32
    → Found runs start retained
unfolding newest_each
found [] start retained small = record {
  newest = start;
  result = ap (λ n. some (start, n)) (omega arith);
  keeps = λ r n. n;
  covers = λ r e. absurd e;
  from = inl refl;
}
found (run ∷ runs) start retained small =
    let rest = found runs (better run start) (retained + 1) (omega (arith, small)) in
    let more : (retained == max_int32) ≡ false = ground (arith, small) in
    record {
      newest = rest.newest;
      result = rw more (rest.result ∙ ap (λ n. some (rest.newest, n)) (omega arith));
      keeps = λ r n. rest.keeps r (better-keeps run r start n);
      covers = λ r e. elim e [
        | inl s ↦ rw s (rest.keeps run (better-here run start))
        | inr e ↦ rest.covers r e
      ];
      from = elim rest.from [
        | inl e ↦ elim (Bool-cases (is_newer run start)) [
          | inl b ↦ inr (run, e ∙ better_is run start b, inl refl)
          | inr b ↦ inl (e ∙ better_not run start b)
        ]
        | inr (r, e, i) ↦ inr (r, e, inr i)
      ];
    }

chosen :
    (runs : List AgentRun) (newest : Option AgentRun)
    → ((r : AgentRun) → Elem r runs → NoneNewer r newest)
    → (newest ≡ none) ⊎ ((r : AgentRun) × (newest ≡ some r) × Elem r runs)
    → Chosen runs newest
chosen runs (some n) c (inl e) = absurd (cc e)
chosen [] none c f = refl
chosen (x ∷ xs) none c f = absurd (c x (inl refl))
chosen runs (some n) c (inr (r, e, i)) = let same : r ≡ n = ground arith in rw same at i

-- Of at most 2^31 - 1 runs the loop counts all, and chooses one that none was created after; it
-- chooses none only if there are no runs.
pub newest_each-finds :
    (runs : List AgentRun)
    → length runs ≤ max_int32
    → (newest : Option AgentRun) × (newest_each runs none 0 ≡ some (newest, length runs))
      × Chosen runs newest
      × ((r : AgentRun) → Elem r runs → NoneNewer r newest)
newest_each-finds runs small =
    let f = found runs none 0 (omega (arith, small)) in
    let counted = ap (λ n. some (f.newest, n)) (omega arith) in
    (f.newest, f.result ∙ counted, chosen runs f.newest f.covers f.from, f.covers)

module _ (env : Environment) where
  report_task-Quiet :
      (agent : Agent) (o : Option (Option AgentRun × ℕ)) → Quiet (report_task env agent o)
  report_task-Quiet agent none = Quiet-raise too_many_runs
  report_task-Quiet agent (some (newest, retained)) =
      Quiet-then _ _ (set_agent_status-Quiet env agent _ _) (Quiet-pure _)

  owned_runs-Quiet : (agent : Agent) → Quiet (owned_runs env agent)
  unfolding owned_runs
  owned_runs-Quiet agent = Quiet-if _ _ _ (Quiet-raise _) (Quiet-list_runs env _ _)

  -- The reconciliation of a Task Agent creates and deletes no run, however it ends.
  pub reconcile_task-Quiet : (agent : Agent) → Quiet (reconcile_task env agent)
  unfolding reconcile_task
  reconcile_task-Quiet agent =
      Quiet-bind _ _ (owned_runs-Quiet agent) λ children. report_task-Quiet agent _
