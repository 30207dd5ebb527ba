-- ===== src/Controller/Scheduled/Summary.antt =====
-- What summarizeScheduledRuns says of each of the runs.
use kontext.Prelude.{
  ℕ, ◌≤◌, ◌≡◌, refl, sym, ◌∙◌, inl, inr, Bool, true, false, ◌||◌, not, List, [], ◌∷◌, Option, none,
  some, Text, map_get, map_set, arith, Bool-cases, ◌==◌, nat_eq, list_eq, beq_refl, if◌then◌else◌,
}
use mathlib.Core.Path.{subst}
use kontext.Api.{Time, AgentRun, is_terminal}
use kontext.Schedule.Metadata.{TimeCodec, slot, sequence, map_get-map_set}
use kontext.Controller.Service.Standing.{Elem}
use kontext.Controller.Scheduled.Sorting.{Elem-sort_by_here}
use kontext.Controller.Scheduled.Runs.{
  ObservedScheduledRuns, sort_by, by_name, larger_count, is_later, note_slot, note_run, note_each,
  summarize_scheduled_runs,
}

is_later-true :
    (t : Time) (run : AgentRun) (l : Option AgentRun) (d : Time)
    → is_later t run l d ≡ true
    → (l ≡ none → d ≡ 0)
    → d ≤ t
is_later-true t run none d e w = omega (arith, w refl)
is_later-true t run (some l) d e w = ground arith

is_later-false :
    (t : Time) (run : AgentRun) (l : Option AgentRun) (d : Time)
    → is_later t run l d ≡ false
    → t ≤ d
is_later-false t run none d e = absurd (cc e)
is_later-false t run (some l) d e = ground arith

module _ (codec : TimeCodec) where
  -- What a summary says of a run.
  pub record IsSummarized (o : ObservedScheduledRuns) (run : AgentRun) : Type 0 where
    pub ended : o.has_active ≡ false → is_terminal run.status.phase ≡ true
    pub counted : (n : ℕ) → sequence run ≡ some n → n ≤ o.max_count
    pub slotted : (t : Time) → slot codec run ≡ some t → t ≤ o.latest_due
    pub held :
        (t : Time)
        → slot codec run ≡ some t
        → (other : AgentRun) × (map_get (codec.format t) o.by_slot ≡ some other)

  abbrev Fresh : ObservedScheduledRuns → Type 0
  Fresh o = o.latest ≡ none → o.latest_due ≡ 0

  -- One summary says at least what another says.
  record Grows (o o' : ObservedScheduledRuns) : Type 0 where
    active : o'.has_active ≡ false → o.has_active ≡ false
    count : o.max_count ≤ o'.max_count
    due : o.latest_due ≤ o'.latest_due
    slots :
        (k : Text)
        → (r : AgentRun) × (map_get k o.by_slot ≡ some r)
        → (r : AgentRun) × (map_get k o'.by_slot ≡ some r)
    fresh : Fresh o'

  Grows-IsSummarized :
      (o o' : ObservedScheduledRuns) (run : AgentRun)
      → Grows o o'
      → IsSummarized o run
      → IsSummarized o' run
  Grows-IsSummarized o o' run g s = record {
    ended = λ e. s.ended (g.active e);
    counted = λ n e. omega (arith, s.counted n e, g.count);
    slotted = λ t e. omega (arith, s.slotted t e, g.due);
    held = λ t e. g.slots (codec.format t) (s.held t e);
  }

  set-held :
      (k j : Text) (x : AgentRun) (m : List (Text × AgentRun))
      → (r : AgentRun) × (map_get j m ≡ some r)
      → (r : AgentRun) × (map_get j (map_set k x m) ≡ some r)
  set-held k j x m (r, e) = elim (Bool-cases (k == j)) [
    | inl q ↦ (x, map_get-map_set k j x m ∙ rw q)
    | inr q ↦ (r, map_get-map_set k j x m ∙ rw q e)
  ]

  set-held_here :
      (k : Text) (x : AgentRun) (m : List (Text × AgentRun)) → map_get k (map_set k x m) ≡ some x
  set-held_here k x m = map_get-map_set k k x m ∙ rw (beq_refl k)

  choose :
      (G : ObservedScheduledRuns → Type 0) (b : Bool) (o1 o2 : ObservedScheduledRuns)
      → (b ≡ true → G o2)
      → (b ≡ false → G o1)
      → G (if b then o2 else o1)
  choose G true o1 o2 f g = f refl
  choose G false o1 o2 f g = g refl

  -- Noting the slot of a run.
  note_slot-Grows :
      (run : AgentRun) (t : Option Time) (o : ObservedScheduledRuns)
      → Fresh o
      → Grows o (note_slot codec run t o)
  note_slot-Grows run none o w = record {
    active = λ e. e;
    count = omega arith;
    due = omega arith;
    slots = λ k h. h;
    fresh = w;
  }
  note_slot-Grows run (some t) o w =
      let later = is_later t run o.latest o.latest_due in
      let o' = record o { by_slot = map_set (codec.format t) run o.by_slot } in
      choose (Grows o) later o' (record o' { latest = some run; latest_due = t })
        (λ b. record {
          active = λ e. e;
          count = omega arith;
          due = is_later-true t run o.latest o.latest_due b w;
          slots = λ k h. set-held (codec.format t) k run o.by_slot h;
          fresh = λ e. absurd (cc e);
        })
        (λ b. record {
          active = λ e. e;
          count = omega arith;
          due = omega arith;
          slots = λ k h. set-held (codec.format t) k run o.by_slot h;
          fresh = w;
        })

  -- The slot that is noted is held, and the latest due time reaches it.
  note_slot-here :
      (run : AgentRun) (t : Time) (o : ObservedScheduledRuns)
      → (t ≤ (note_slot codec run (some t) o).latest_due)
        × (map_get (codec.format t) (note_slot codec run (some t) o).by_slot ≡ some run)
  note_slot-here run t o =
      let o' = record o { by_slot = map_set (codec.format t) run o.by_slot } in
      choose (λ o''. (t ≤ o''.latest_due) × (map_get (codec.format t) o''.by_slot ≡ some run))
        (is_later t run o.latest o.latest_due) o' (record o' { latest = some run; latest_due = t })
        (λ b. (omega arith, set-held_here (codec.format t) run o.by_slot))
        (λ b. (
          is_later-false t run o.latest o.latest_due b,
          set-held_here (codec.format t) run o.by_slot,
        ))

  abbrev counted_in : AgentRun → ObservedScheduledRuns → ObservedScheduledRuns
  counted_in run o = record o {
    has_active = o.has_active || not (is_terminal run.status.phase);
    max_count = larger_count (sequence run) o.max_count;
  }

  le-larger_count : (m : Option ℕ) (c : ℕ) → c ≤ larger_count m c
  le-larger_count none c = omega arith
  le-larger_count (some n) c = ground arith

  larger_count-reached : (n c : ℕ) → n ≤ larger_count (some n) c
  larger_count-reached n c = ground arith

  counted_in-Grows :
      (run : AgentRun) (o : ObservedScheduledRuns) → Fresh o → Grows o (counted_in run o)
  counted_in-Grows run o w = record {
    active = λ e. ground arith;
    count = le-larger_count (sequence run) o.max_count;
    due = omega arith;
    slots = λ k h. h;
    fresh = w;
  }

  Grows-trans : (a b c : ObservedScheduledRuns) → Grows a b → Grows b c → Grows a c
  Grows-trans a b c g h = record {
    active = λ e. g.active (h.active e);
    count = omega (arith, g.count, h.count);
    due = omega (arith, g.due, h.due);
    slots = λ k s. h.slots k (g.slots k s);
    fresh = h.fresh;
  }

  note_run-Grows :
      (run : AgentRun) (o : ObservedScheduledRuns) → Fresh o → Grows o (note_run codec run o)
  note_run-Grows run o w =
      Grows-trans o (counted_in run o) (note_run codec run o) (counted_in-Grows run o w)
        (note_slot-Grows run (slot codec run) (counted_in run o) w)

  slot-here :
      (run : AgentRun) (o : ObservedScheduledRuns) (t : Time)
      → slot codec run ≡ some t
      → (t ≤ (note_run codec run o).latest_due)
        × (map_get (codec.format t) (note_run codec run o).by_slot ≡ some run)
  slot-here run o t e =
      subst
        (λ s.
          (t ≤ (note_slot codec run s (counted_in run o)).latest_due)
          × (map_get (codec.format t) (note_slot codec run s (counted_in run o)).by_slot
              ≡ some run))
        (sym e) (note_slot-here run t (counted_in run o))

  note_run-IsSummarized :
      (run : AgentRun) (o : ObservedScheduledRuns)
      → Fresh o
      → IsSummarized (note_run codec run o) run
  note_run-IsSummarized run o w =
      let g = note_slot-Grows run (slot codec run) (counted_in run o) w in
      record {
        ended = λ e. let inactive = g.active e in ground arith;
        counted = λ n e.
            let reached : n ≤ larger_count (sequence run) o.max_count =
              rw e (larger_count-reached n o.max_count) in
            omega (arith, reached, g.count);
        slotted = λ t e. (slot-here run o t e).0;
        held = λ t e. (run, (slot-here run o t e).1);
      }

  note_each-Grows :
      (runs : List AgentRun) (o : ObservedScheduledRuns)
      → Fresh o
      → Grows o (note_each codec runs o)
  unfolding note_each
  note_each-Grows [] o w = record {
    active = λ e. e;
    count = omega arith;
    due = omega arith;
    slots = λ k h. h;
    fresh = w;
  }
  note_each-Grows (x ∷ runs) o w =
      let g = note_run-Grows x o w in
      Grows-trans o (note_run codec x o) (note_each codec runs (note_run codec x o)) g
        (note_each-Grows runs (note_run codec x o) g.fresh)

  note_each-IsSummarized :
      (runs : List AgentRun) (o : ObservedScheduledRuns) (run : AgentRun)
      → Fresh o
      → Elem run runs
      → IsSummarized (note_each codec runs o) run
  unfolding note_each
  note_each-IsSummarized [] o run w e = absurd e
  note_each-IsSummarized (x ∷ runs) o run w e =
      let o' = note_run codec x o in
      let fresh = Grows.fresh (note_run-Grows x o w) in
      elim e [
        | inl s ↦ rw s (
            Grows-IsSummarized o' (note_each codec runs o') x (note_each-Grows runs o' fresh)
              (note_run-IsSummarized x o w))
        | inr e ↦ note_each-IsSummarized runs o' run fresh e
      ]

  -- A summary covers each run of the list: if it has no active run, the run is terminal; its count
  -- is at least the run's number; its latest slot is at least the run's; and it holds some run
  -- under the run's slot.
  pub summarize_scheduled_runs-IsSummarized :
      (runs : List AgentRun) (run : AgentRun)
      → Elem run runs
      → IsSummarized (summarize_scheduled_runs codec runs) run
  unfolding summarize_scheduled_runs
  summarize_scheduled_runs-IsSummarized runs run e =
      note_each-IsSummarized (sort_by by_name runs) _ run (λ n. refl)
        (Elem-sort_by_here by_name run runs e)
