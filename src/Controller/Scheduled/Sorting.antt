-- ===== src/Controller/Scheduled/Sorting.antt =====
-- The runs of a sorted list: which they are, and how many pass a test.
use kontext.Prelude.{
  ℕ, suc, ◌≡◌, refl, ap, ◌∙◌, inl, inr, ◌⊎◌, Bool, true, false, List, [], ◌∷◌, arith, Bool-cases,
}
use kontext.Api.{AgentRun}
use kontext.Controller.Service.Standing.{Elem}
use kontext.Controller.Scheduled.Runs.{insert_by, sort_by}

-- The runs of a sorted list are among the list's.
Elem-insert_by :
    (less : AgentRun → AgentRun → Bool) (r x : AgentRun) (xs : List AgentRun)
    → Elem r (insert_by less x xs)
    → (r ≡ x) ⊎ Elem r xs
unfolding insert_by
Elem-insert_by less r x [] e = e
Elem-insert_by less r x (y ∷ ys) e = elim (Bool-cases (less y x)) [
  | inl b ↦
      let e' : (r ≡ y) ⊎ Elem r (insert_by less x ys) = rw b at e in
      elim e' [
        | inl s ↦ inr (inl s)
        | inr e ↦ elim (Elem-insert_by less r x ys e) [ inl s ↦ inl s | inr e ↦ inr (inr e) ]
      ]
  | inr b ↦ rw b at e
]

pub Elem-sort_by :
    (less : AgentRun → AgentRun → Bool) (r : AgentRun) (xs : List AgentRun)
    → Elem r (sort_by less xs)
    → Elem r xs
unfolding sort_by
Elem-sort_by less r [] e = e
Elem-sort_by less r (x ∷ xs) e = elim (Elem-insert_by less r x (sort_by less xs) e) [
  | inl s ↦ inl s
  | inr e ↦ inr (Elem-sort_by less r xs e)
]

-- The converse of `Elem-sort_by`.
Elem-insert_by_here :
    (less : AgentRun → AgentRun → Bool) (r x : AgentRun) (xs : List AgentRun)
    → (r ≡ x) ⊎ Elem r xs
    → Elem r (insert_by less x xs)
unfolding insert_by
Elem-insert_by_here less r x [] e = e
Elem-insert_by_here less r x (y ∷ ys) e = elim (Bool-cases (less y x)) [
  | inl b ↦ rw b (elim e [
    | inl s ↦ inr (Elem-insert_by_here less r x ys (inl s))
    | inr e ↦ elim e [ inl s ↦ inl s | inr e ↦ inr (Elem-insert_by_here less r x ys (inr e)) ]
  ])
  | inr b ↦ rw b e
]

pub Elem-sort_by_here :
    (less : AgentRun → AgentRun → Bool) (r : AgentRun) (xs : List AgentRun)
    → Elem r xs
    → Elem r (sort_by less xs)
unfolding sort_by
Elem-sort_by_here less r [] e = e
Elem-sort_by_here less r (x ∷ xs) e =
    Elem-insert_by_here less r x (sort_by less xs)
      (elim e [ inl s ↦ inl s | inr e ↦ inr (Elem-sort_by_here less r xs e) ])

-- The number of runs that pass a test.
abbrev pub count_if : Bool → ℕ → ℕ
count_if true n = suc n
count_if false n = n

abbrev pub count : (AgentRun → Bool) → List AgentRun → ℕ
count t [] = 0
count t (x ∷ xs) = count_if (t x) (count t xs)

count-insert_by :
    (less : AgentRun → AgentRun → Bool) (t : AgentRun → Bool) (x : AgentRun) (xs : List AgentRun)
    → count t (insert_by less x xs) ≡ count_if (t x) (count t xs)
unfolding insert_by
count-insert_by less t x [] = refl
count-insert_by less t x (y ∷ ys) = elim (Bool-cases (less y x)) [
  | inl b ↦ rw (b, count-insert_by less t x ys) (swap (t x) (t y) (count t ys))
  | inr b ↦ rw b
]
  where
    swap : (a b : Bool) (n : ℕ) → count_if b (count_if a n) ≡ count_if a (count_if b n)
    swap a b n = ground arith

pub count-sort_by :
    (less : AgentRun → AgentRun → Bool) (t : AgentRun → Bool) (xs : List AgentRun)
    → count t (sort_by less xs) ≡ count t xs
unfolding sort_by
count-sort_by less t [] = refl
count-sort_by less t (x ∷ xs) =
    count-insert_by less t x (sort_by less xs) ∙ ap (count_if (t x)) (count-sort_by less t xs)
