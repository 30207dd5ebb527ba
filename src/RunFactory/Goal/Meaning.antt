-- ===== src/RunFactory/Goal/Meaning.antt =====
-- interpolateGoal as a whole: which templates and parameters it accepts, and the goal that it gives.
use kontext.Prelude.{
  suc, ◌≡◌, ◌≢◌, ◌↔◌, refl, sym, ap, ◌∙◌, inl, inr, true, ◌||◌, List, [], ◌∷◌, ◌++◌, Text, arith,
  length, ◌==◌, nat_eq, list_eq, Bool-cases, Option-cases, map_get, keys, set_add, text_mem,
  eq_of_beq,
}
use mathlib.Core.List.{append-nil, append_assoc}
use kontext.RunFactory.Errors.{ResolutionError, missing_parameters, ok, err, Result-cases}
use kontext.RunFactory.Goal.{
  Parameters, Rendering, empty_rendering, substitute, render, unused_names, check_missing,
  check_unused, finish, interpolate_goal,
}
use kontext.RunFactory.Goal.Template.{
  Token, literal, escape, hole, print, WellFormed, token_text, meaning, is_bound, Bound, is_hole,
  mentions, AllUsed,
}
use kontext.RunFactory.Goal.Invalid.{render-code}
use kontext.RunFactory.Goal.Loop.{add_token, add_tokens, render-print, render_sound}

rendered-add_token :
    (ps : Parameters) (k : Token) (r : Rendering)
    → (add_token ps k r).rendered ≡ r.rendered ++ token_text ps k
unfolding add_token substitute
rendered-add_token ps (literal c) r = refl
rendered-add_token ps (escape n) r = refl
rendered-add_token ps (hole n) r = elim (Option-cases (map_get n ps)) [
  | inl e ↦ rw e (sym (append-nil r.rendered))
  | inr (v, e) ↦ rw e
]

rendered-add_tokens :
    (ps : Parameters) (ts : List Token) (r : Rendering)
    → (add_tokens ps ts r).rendered ≡ r.rendered ++ meaning ps ts
unfolding add_tokens meaning
rendered-add_tokens ps [] r = sym (append-nil r.rendered)
rendered-add_tokens ps (k ∷ ts) r =
    rendered-add_tokens ps ts (add_token ps k r)
    ∙ ap (λ x. x ++ meaning ps ts) (rendered-add_token ps k r)
    ∙ append_assoc r.rendered (token_text ps k) (meaning ps ts)

set_add-ne-nil : (x : Text) (xs : List Text) → set_add x xs ≢ []
unfolding set_add
set_add-ne-nil x [] h = ground arith
set_add-ne-nil x (y ∷ ys) h = ground arith

mem-set_add : (k x : Text) (xs : List Text) → text_mem k (set_add x xs) ≡ (k == x || text_mem k xs)
unfolding set_add text_mem
mem-set_add k x xs = elim (Bool-cases (k == x)) [
  | inl e ↦ elim (Bool-cases (text_mem x xs)) [
    | inl m ↦ rw (e, m) (rw (eq_of_beq k x e) m)
    | inr m ↦ rw (e, m) (rw e)
  ]
  | inr e ↦ elim (Bool-cases (text_mem x xs)) [ inl m ↦ rw (e, m) | inr m ↦ rw (e, m) (rw e) ]
]

-- Nothing is missing at the end exactly if nothing was and the placeholders are bound.
missing-add_token :
    (ps : Parameters) (k : Token) (r : Rendering)
    → ((add_token ps k r).missing ≡ []) ↔ ((is_bound ps k ≡ true) × (r.missing ≡ []))
unfolding add_token substitute
missing-add_token ps (literal c) r = (λ h. (refl, h), λ h. h.1)
missing-add_token ps (escape n) r = (λ h. (refl, h), λ h. h.1)
missing-add_token ps (hole n) r = elim (Option-cases (map_get n ps)) [
  | inl e ↦ rw e (λ h. absurd (set_add-ne-nil n r.missing h), λ h. absurd (cc (h.0)))
  | inr (v, e) ↦ rw e (λ h. (refl, h), λ h. h.1)
]

missing-add_tokens :
    (ps : Parameters) (ts : List Token) (r : Rendering)
    → ((add_tokens ps ts r).missing ≡ []) ↔ (Bound ps ts × (r.missing ≡ []))
unfolding add_tokens
missing-add_tokens ps [] r = (λ h. (tt, h), λ h. h.1)
missing-add_tokens ps (k ∷ ts) r =
    let (there, back) = missing-add_tokens ps ts (add_token ps k r) in
    let (to, from) = missing-add_token ps k r in
    (λ h. (let (b, m) = there h in (((to m).0, b), (to m).1)), λ h. back (h.0.1, from (h.0.0, h.1)))

used-add_token :
    (ps : Parameters) (k : Token) (r : Rendering) (n : Text)
    → is_bound ps k ≡ true
    → text_mem n (add_token ps k r).used ≡ (text_mem n r.used || is_hole n k)
unfolding add_token substitute
used-add_token ps (literal c) r n h = ground arith
used-add_token ps (escape m) r n h = ground arith
used-add_token ps (hole m) r n h = elim (Option-cases (map_get m ps)) [
  | inl e ↦ absurd (ground arith)
  | inr (v, e) ↦ rw e (ground (arith, mem-set_add n m r.used))
]

used-add_tokens :
    (ps : Parameters) (ts : List Token) (r : Rendering) (n : Text)
    → Bound ps ts
    → text_mem n (add_tokens ps ts r).used ≡ (text_mem n r.used || mentions n ts)
unfolding add_tokens mentions
used-add_tokens ps [] r n h = ground arith
used-add_tokens ps (k ∷ ts) r n (h, hs) =
    ground (arith, used-add_tokens ps ts (add_token ps k r) n hs, used-add_token ps k r n h)

-- No name is unused exactly if each is mentioned, `used` being what is mentioned.
unused_names-nil :
    (used : List Text) (ts : List Token) (ks : List Text)
    → ((n : Text) → text_mem n used ≡ mentions n ts)
    → (unused_names used ks ≡ []) ↔ AllUsed ks ts
unfolding unused_names
unused_names-nil used ts [] h = (λ _. tt, λ _. refl)
unused_names-nil used ts (k ∷ ks) h =
    let (there, back) = unused_names-nil used ts ks h in
    elim (Bool-cases (mentions k ts)) [
      | inl m ↦ rw (h k, m) (λ e. (refl, there e), λ e. back e.1)
      | inr m ↦
          rw (h k, m)
            (λ e. absurd (set_add-ne-nil k (unused_names used ks) e), λ e. absurd (cc (e.0)))
    ]

finish_sound :
    (ps : Parameters) (r : Rendering) (g : Text)
    → finish ps r ≡ ok g
    → (r.missing ≡ []) × (unused_names r.used (keys ps) ≡ []) × (g ≡ r.rendered)
unfolding finish check_missing check_unused
finish_sound ps r g h = ground arith

finish_complete :
    (ps : Parameters) (r : Rendering)
    → r.missing ≡ []
    → unused_names r.used (keys ps) ≡ []
    → finish ps r ≡ ok r.rendered
unfolding finish check_missing check_unused
finish_complete ps r m u = rw (m, u)

used-from_empty :
    (ps : Parameters) (ts : List Token)
    → Bound ps ts
    → (n : Text) → text_mem n (add_tokens ps ts empty_rendering).used ≡ mentions n ts
unfolding text_mem
used-from_empty ps ts b n = used-add_tokens ps ts empty_rendering n b

-- A template is read as `ts`, all placeholders have parameters and all parameters placeholders.
pub record Accepts (t : Text) (ps : Parameters) (ts : List Token) : Type 0 where
  pub readable : WellFormed ts
  pub printed : t ≡ print ts
  pub bound : Bound ps ts
  pub all_used : AllUsed (keys ps) ts

-- interpolateGoal returns a goal exactly when the template is a printed list of well-formed tokens
-- whose placeholders all have parameters and which mentions every parameter; the goal is then what
-- the tokens stand for.
pub interpolate_goal_iff :
    (t : Text) (ps : Parameters) (g : Text)
    → (interpolate_goal t ps ≡ ok g) ↔ ((ts : List Token) × Accepts t ps ts × (g ≡ meaning ps ts))
unfolding interpolate_goal
interpolate_goal_iff t ps g = (sound, complete)
  where
    after_loop :
        (ts : List Token)
        → Accepts t ps ts
        → finish ps (add_tokens ps ts empty_rendering) ≡ ok (meaning ps ts)
    after_loop ts a =
        let r = add_tokens ps ts empty_rendering in
        finish_complete ps r ((missing-add_tokens ps ts empty_rendering).1 (a.bound, refl))
          ((unused_names-nil r.used ts (keys ps) (used-from_empty ps ts a.bound)).1 a.all_used)
        ∙ ap ok (rendered-add_tokens ps ts empty_rendering)

    complete :
        (ts : List Token) × Accepts t ps ts × (g ≡ meaning ps ts) → interpolate_goal t ps ≡ ok g
    complete (ts, a, e) =
        rw (e, a.printed)
          (rw
            (render-print (suc (length (print ts))) ps ts 0 empty_rendering (omega arith)
              a.readable)
            (after_loop ts a))

    at_loop :
        (r : Rendering)
        → render (suc (length t)) ps t 0 empty_rendering ≡ ok r
        → finish ps r ≡ ok g
        → (ts : List Token) × Accepts t ps ts × (g ≡ meaning ps ts)
    at_loop r e f =
        let (ts, w, p, q) =
          render_sound (suc (length t)) ps t 0 empty_rendering r (omega arith) e in
        let (m, u, d) = finish_sound ps r g f in
        let b =
          ((missing-add_tokens ps ts empty_rendering).0 (ap (λ x. x.missing) (sym q) ∙ m)).0 in
        let used : (n : Text) → text_mem n r.used ≡ mentions n ts =
          λ n. ap (λ x. text_mem n x.used) q ∙ used-from_empty ps ts b n in
        (
          ts,
          record {
            readable = w;
            printed = p;
            bound = b;
            all_used = (unused_names-nil r.used ts (keys ps) used).0 u;
          },
          d ∙ ap (λ x. x.rendered) q ∙ rendered-add_tokens ps ts empty_rendering,
        )

    sound : interpolate_goal t ps ≡ ok g → (ts : List Token) × Accepts t ps ts × (g ≡ meaning ps ts)
    sound e = elim (Result-cases (render (suc (length t)) ps t 0 empty_rendering)) [
      | inl (x, q) ↦ absurd (ground arith)
      | inr (r, q) ↦ at_loop r q (ground arith)
    ]

-- Without parameters, the error of missing parameters means that the template parses.
pub interpolate_goal-missing :
    (t : Text) (ps : Parameters) (e : ResolutionError)
    → interpolate_goal t ps ≡ err e
    → e.code ≡ missing_parameters
    → (ts : List Token) × WellFormed ts × (t ≡ print ts)
unfolding interpolate_goal
interpolate_goal-missing t ps e h c =
    elim (Result-cases (render (suc (length t)) ps t 0 empty_rendering)) [
      | inl (x, q) ↦
          absurd (ground (arith, render-code (suc (length t)) ps t 0 empty_rendering x q))
      | inr (r, q) ↦
          let (ts, w, p, _) =
            render_sound (suc (length t)) ps t 0 empty_rendering r (omega arith) q in
          (ts, w, p)
    ]
