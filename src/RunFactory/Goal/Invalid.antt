-- ===== src/RunFactory/Goal/Invalid.antt =====
-- The errors of interpolateGoal that are the template's own.
use kontext.Prelude.{
  ℕ, zero, suc, ◌+◌, ◌≡◌, ◌≢◌, ◌∙◌, ap, inl, inr, ◌⊎◌, [], ◌∷◌, ◌++◌, Text, text, arith, length,
  Option-cases, map_get,
}
use kontext.RunFactory.Errors.{
  ResolutionError, invalid_template, missing_parameters, unused_parameters, err, Result-cases,
}
use kontext.RunFactory.Goal
use kontext.RunFactory.Goal.{
  Parameters, Rendering, Head, at_end, escaped, opened, byte, empty_rendering, write, substitute,
  parse_placeholder, head, round, render, check_missing, check_unused, unused_names, finish,
  interpolate_goal,
}

parse_placeholder-err :
    (s : Text) (i : ℕ) (e : ResolutionError)
    → parse_placeholder s i ≡ err e
    → e.code ≡ invalid_template
unfolding parse_placeholder
parse_placeholder-err s i e h = elim (Option-cases (Goal.cut_brace s)) [
  | inl q ↦ ground arith
  | inr (p, q) ↦ ground arith
]

-- An error of a round comes from the placeholder at its head, or from the loop behind it.
abbrev Fails : Goal.Loop → Goal.Loop → ResolutionError → Type 0
Fails loop loop' e =
    (t : Text) (j : ℕ) (r r' : Rendering) → loop t j r ≡ err e → loop' t j r' ≡ err e

round-Fails :
    (loop loop' : Goal.Loop) (ps ps' : Parameters) (h : Head) (i : ℕ) (r r' : Rendering)
    (e : ResolutionError)
    → Fails loop loop' e
    → round loop ps h i r ≡ err e
    → round loop' ps' h i r' ≡ err e
unfolding round
round-Fails loop loop' ps ps' at_end i r r' e f h = absurd (ground arith)
round-Fails loop loop' ps ps' (byte c s) i r r' e f h = f s (i + 1) _ _ h
round-Fails loop loop' ps ps' (escaped s) i r r' e f h =
    elim (Result-cases (parse_placeholder s (i + 1))) [
      | inl (x, q) ↦ ground arith
      | inr ((n, t, j), q) ↦
          let w = write (Goal.placeholder_open ++ n ++ text "}") in
          rw q (f t j (w r) (w r') (ground arith))
    ]
round-Fails loop loop' ps ps' (opened s) i r r' e f h =
    elim (Result-cases (parse_placeholder s i)) [
      | inl (x, q) ↦ ground arith
      | inr ((n, t, j), q) ↦
          rw q
            (f t j (substitute n (map_get n ps) r) (substitute n (map_get n ps') r') (ground arith))
    ]

render-Fails :
    (fuel : ℕ) (ps ps' : Parameters) (e : ResolutionError)
    → Fails (render fuel ps) (render fuel ps') e
unfolding render
render-Fails zero ps ps' e t i r r' h = absurd (ground arith)
render-Fails (suc fuel) ps ps' e t i r r' h =
    round-Fails (render fuel ps) (render fuel ps') ps ps' (head t) i r r' e
      (render-Fails fuel ps ps' e) h

round-code :
    (loop : Goal.Loop) (ps : Parameters) (h : Head) (i : ℕ) (r : Rendering) (e : ResolutionError)
    → ((t : Text) (j : ℕ) (r : Rendering) → loop t j r ≡ err e → e.code ≡ invalid_template)
    → round loop ps h i r ≡ err e
    → e.code ≡ invalid_template
unfolding round
round-code loop ps at_end i r e f h = absurd (ground arith)
round-code loop ps (byte c s) i r e f h = f s (i + 1) _ h
round-code loop ps (escaped s) i r e f h = elim (Result-cases (parse_placeholder s (i + 1))) [
  | inl (x, q) ↦ parse_placeholder-err s (i + 1) e (ground arith)
  | inr ((n, t, j), q) ↦ f t j (write (Goal.placeholder_open ++ n ++ text "}") r) (ground arith)
]
round-code loop ps (opened s) i r e f h = elim (Result-cases (parse_placeholder s i)) [
  | inl (x, q) ↦ parse_placeholder-err s i e (ground arith)
  | inr ((n, t, j), q) ↦ f t j (substitute n (map_get n ps) r) (ground arith)
]

pub render-code :
    (fuel : ℕ) (ps : Parameters) (t : Text) (i : ℕ) (r : Rendering) (e : ResolutionError)
    → render fuel ps t i r ≡ err e
    → e.code ≡ invalid_template
unfolding render
render-code zero ps t i r e h = absurd (ground arith)
render-code (suc fuel) ps t i r e h =
    round-code (render fuel ps) ps (head t) i r e (λ t j r. render-code fuel ps t j r e) h

finish-code :
    (ps : Parameters) (r : Rendering) (e : ResolutionError)
    → finish ps r ≡ err e
    → (e.code ≡ missing_parameters) ⊎ ((e.code ≡ unused_parameters) × (ps ≢ []))
unfolding finish check_missing check_unused unused_names
finish-code [] r e h = inl (ground arith)
finish-code (p ∷ ps) r e h = ground arith

-- An error without parameters, other than missing parameters, is the same error with any: the
-- template does not parse.
pub interpolate_goal-invalid :
    (t : Text) (e : ResolutionError)
    → interpolate_goal t [] ≡ err e
    → e.code ≢ missing_parameters
    → (e.code ≡ invalid_template) × ((ps : Parameters) → interpolate_goal t ps ≡ err e)
unfolding interpolate_goal
interpolate_goal-invalid t e h c =
    elim (Result-cases (render (suc (length t)) [] t 0 empty_rendering)) [
      | inl (x, q) ↦
          let same : x ≡ e = ground arith in
          let q' : render (suc (length t)) [] t 0 empty_rendering ≡ err e = q ∙ ap err same in
          (
            render-code (suc (length t)) [] t 0 empty_rendering e q',
            λ ps. rw (render-Fails (suc (length t)) [] ps e t 0 empty_rendering empty_rendering q'),
          )
      | inr (r, q) ↦ absurd (ground (arith, finish-code [] r e))
    ]
