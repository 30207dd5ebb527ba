-- ===== src/Controller/Service/Standing.antt =====
-- Which runs observeServiceRuns (internal/controller/agent_controller.go) finds.
use kontext.Prelude.{
  ℕ, ◌≤◌, ◌<◌, ◌≡◌, refl, ap, inl, inr, ◌⊎◌, List, [], ◌∷◌, Option, none, some, Text, arith, ltb,
  max_int32, Bool-cases, Option-cases,
}
use kontext.Api.{AgentRun}
use kontext.Controller.Service.Suffix.{service_run_suffix_iff}
use kontext.Controller.Service.Observe.{
  ObservedServiceRuns, Seen, nothing_seen, rank, rank_if, standing_suffix, observe_each, observe,
}

-- A run of a list.
abbrev pub Elem : AgentRun → List AgentRun → Type 0
Elem r [] = ⊥
Elem r (x ∷ xs) = (r ≡ x) ⊎ Elem r xs

pub standing_suffix_bounds :
    (a : Text) (r : AgentRun) (n : ℕ) → standing_suffix a r ≡ some n → (1 ≤ n) × (n ≤ max_int32)
unfolding standing_suffix
standing_suffix_bounds a r n h = elim (Option-cases r.spec.delivery) [
  | inl e ↦ let (lo, hi, _) = (service_run_suffix_iff a r.name n).0 (ground arith) in (lo, hi)
  | inr (d, e) ↦ absurd (ground arith)
]

module _ (agent_name : Text) where
  -- A run that the loop has seen: the one at `n`, or none and `n` is 0.
  abbrev pub Holds : (AgentRun → Type 0) → Option AgentRun → ℕ → Type 0
  Holds Seen' none n = n ≡ 0
  Holds Seen' (some r) n = Seen' r × (standing_suffix agent_name r ≡ some n)

  -- What holds of the loop's variables when the runs of `P` have been seen.
  record Ranked (P : AgentRun → Type 0) (s : Seen) : Type 0 where
    best : Holds P s.runs.current s.runs.max_suffix
    second : Holds P s.runs.previous s.previous_suffix
    order : s.previous_suffix ≤ s.runs.max_suffix
    covered :
        (r : AgentRun) (n : ℕ)
        → P r
        → standing_suffix agent_name r ≡ some n
        → (n ≡ s.runs.max_suffix) ⊎ (n ≤ s.previous_suffix)

  Holds-more :
      (P Q : AgentRun → Type 0)
      → ((r : AgentRun) → P r → Q r)
      → (o : Option AgentRun) (n : ℕ) → Holds P o n
      → Holds Q o n
  Holds-more P Q f none n h = h
  Holds-more P Q f (some r) n (p, e) = (f r p, e)

  abbrev Plus : (AgentRun → Type 0) → AgentRun → AgentRun → Type 0
  Plus P x r = P r ⊎ (r ≡ x)

  skip-Ranked :
      (P : AgentRun → Type 0) (s : Seen) (x : AgentRun)
      → standing_suffix agent_name x ≡ none
      → Ranked P s
      → Ranked (Plus P x) s
  skip-Ranked P s x e k = record {
    best = Holds-more P (Plus P x) (λ r p. inl p) s.runs.current s.runs.max_suffix k.best;
    second = Holds-more P (Plus P x) (λ r p. inl p) s.runs.previous s.previous_suffix k.second;
    order = k.order;
    covered = λ r n p q. elim p [
      | inl p ↦ k.covered r n p q
      | inr same ↦ absurd (cc (e, q, ap (standing_suffix agent_name) same))
    ];
  }

  module _ (P : AgentRun → Type 0) (s : Seen) (x : AgentRun) (n : ℕ) (pos : 0 < n)
      (e : standing_suffix agent_name x ≡ some n) (k : Ranked P s) where
    old_best : Holds (Plus P x) s.runs.current s.runs.max_suffix
    old_best = Holds-more P (Plus P x) (λ r p. inl p) s.runs.current s.runs.max_suffix k.best

    old_second : Holds (Plus P x) s.runs.previous s.previous_suffix
    old_second = Holds-more P (Plus P x) (λ r p. inl p) s.runs.previous s.previous_suffix k.second

    -- The number of the new run, wherever it is met.
    its_number : (r : AgentRun) (m : ℕ) → r ≡ x → standing_suffix agent_name r ≡ some m → m ≡ n
    its_number r m same q = cc (q, ap (standing_suffix agent_name) same, e)

    rank-Ranked : Ranked (Plus P x) (rank x n s)
    unfolding rank
    rank-Ranked = elim (Bool-cases (ltb s.runs.max_suffix n)) [
      | inl a ↦ rw a (record {
        best = (inr refl, e);
        second = old_best;
        order = ground arith;
        covered = λ r m p q. elim p [
          | inl p ↦ inr (ground (arith, k.covered r m p q, k.order))
          | inr same ↦ inl (its_number r m same q)
        ];
      })
      | inr a ↦ elim (Bool-cases (ltb s.previous_suffix n)) [
        | inl b ↦
            rw (a, b)
              (record {
                best = old_best;
                second = (inr refl, e);
                order = ground arith;
                covered = λ r m p q. elim p [
                  | inl p ↦ ground (arith, k.covered r m p q)
                  | inr same ↦ inr (ground (arith, its_number r m same q))
                ];
              })
        | inr b ↦
            rw (a, b)
              (record {
                best = old_best;
                second = old_second;
                order = k.order;
                covered = λ r m p q. elim p [
                  | inl p ↦ k.covered r m p q
                  | inr same ↦ inr (ground (arith, its_number r m same q))
                ];
              })
      ]
    ]

  rank_if-Ranked :
      (P : AgentRun → Type 0) (s : Seen) (x : AgentRun) (o : Option ℕ)
      → standing_suffix agent_name x ≡ o
      → ((n : ℕ) → o ≡ some n → 0 < n)
      → Ranked P s
      → Ranked (Plus P x) (rank_if x o s)
  rank_if-Ranked P s x none e pos k = skip-Ranked P s x e k
  rank_if-Ranked P s x (some n) e pos k = rank-Ranked P s x n (pos n refl) e k

  Ranked-more :
      (P Q : AgentRun → Type 0) (s : Seen)
      → ((r : AgentRun) → P r → Q r)
      → ((r : AgentRun) → Q r → P r)
      → Ranked P s
      → Ranked Q s
  Ranked-more P Q s f g k = record {
    best = Holds-more P Q f s.runs.current s.runs.max_suffix k.best;
    second = Holds-more P Q f s.runs.previous s.previous_suffix k.second;
    order = k.order;
    covered = λ r n q e. k.covered r n (g r q) e;
  }

  observe_each-Ranked :
      (P : AgentRun → Type 0) (s : Seen) (runs : List AgentRun)
      → Ranked P s
      → Ranked (λ r. P r ⊎ Elem r runs) (observe_each agent_name runs s)
  unfolding observe_each
  observe_each-Ranked P s [] k =
      Ranked-more P (λ r. P r ⊎ ⊥) s (λ r p. inl p) (λ r q. elim q [ inl p ↦ p | inr b ↦ absurd b ])
        k
  observe_each-Ranked P s (x ∷ runs) k =
      let s' = rank_if x (standing_suffix agent_name x) s in
      Ranked-more (λ r. Plus P x r ⊎ Elem r runs) (λ r. P r ⊎ Elem r (x ∷ runs))
        (observe_each agent_name runs s')
        (λ r q. elim q [
          | inl p ↦ elim p [ inl p ↦ inl p | inr e ↦ inr (inl e) ]
          | inr e ↦ inr (inr e)
        ])
        (λ r q. elim q [
          | inl p ↦ inl (inl p)
          | inr e ↦ elim e [ inl e ↦ inl (inr e) | inr e ↦ inr e ]
        ])
        (observe_each-Ranked (Plus P x) s' runs (
          rank_if-Ranked P s x (standing_suffix agent_name x) refl
            (λ n e. (standing_suffix_bounds agent_name x n e).0) k))

-- What the Agent reconciler knows of the standing runs in a list.
pub record IsObserved (agent_name : Text) (runs : List AgentRun) (o : ObservedServiceRuns)
    : Type 0 where
  pub current : Holds agent_name (λ r. Elem r runs) o.current o.max_suffix
  pub previous_suffix : ℕ
  pub previous : Holds agent_name (λ r. Elem r runs) o.previous previous_suffix
  pub order : previous_suffix ≤ o.max_suffix
  pub covered :
      (r : AgentRun) (n : ℕ)
      → Elem r runs
      → standing_suffix agent_name r ≡ some n
      → (n ≡ o.max_suffix) ⊎ (n ≤ previous_suffix)

-- The current run is a standing run of the list with the largest number, 0 if there is none; the
-- previous run has a number that every standing run without the largest number stays within.
pub observe-IsObserved :
    (agent_name : Text) (runs : List AgentRun)
    → IsObserved agent_name runs (observe agent_name runs)
unfolding observe
observe-IsObserved agent_name runs =
    let k =
      observe_each-Ranked agent_name (λ r. ⊥) nothing_seen runs
        (record { best = refl; second = refl; order = omega arith; covered = λ r n b. absurd b }) in
    let k' =
      Ranked-more agent_name (λ r. ⊥ ⊎ Elem r runs) (λ r. Elem r runs)
        (observe_each agent_name runs nothing_seen) (λ r q. elim q [ inl b ↦ absurd b | inr e ↦ e ])
        (λ r e. inr e) k in
    record {
      current = k'.best;
      previous_suffix = (observe_each agent_name runs nothing_seen).previous_suffix;
      previous = k'.second;
      order = k'.order;
      covered = k'.covered;
    }
