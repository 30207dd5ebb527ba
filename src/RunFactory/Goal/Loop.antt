-- ===== src/RunFactory/Goal/Loop.antt =====
-- The loop of interpolateGoal (internal/runfactory/runfactory.go), and lists of tokens.
use kontext.Prelude.{
  ℕ, zero, suc, ◌+◌, ◌<◌, ◌≡◌, refl, ap, ◌∙◌, inl, inr, ◌⊎◌, true, List, [], ◌∷◌, ◌++◌, none, some,
  Text, text, arith, length, length-append, ◌==◌, nat_eq, list_eq, Bool-cases, Option-cases,
  strip_prefix, append-strip_prefix, map_get,
}
use kontext.RunFactory.Errors.{ok, Result-cases}
use kontext.RunFactory.Goal
use kontext.RunFactory.Goal.{
  Parameters, Rendering, Head, at_end, escaped, opened, byte, escaped_open, placeholder_open, write,
  substitute, cut_brace, parse_placeholder, valid_tail, valid_parameter_name,
  ascii_letter_or_underscore, head, head_of, round, render,
}
use kontext.RunFactory.Goal.Template.{
  Token, literal, escape, hole, print_token, print, WellFormed, WellFormedAt,
}

-- What one token does to the builder and the sets.
unfoldable pub add_token : Parameters → Token → Rendering → Rendering
add_token ps (literal c) r = write (c ∷ []) r
add_token ps (escape n) r = write (placeholder_open ++ n ++ text "}") r
add_token ps (hole n) r = substitute n (map_get n ps) r

unfoldable pub add_tokens : Parameters → List Token → Rendering → Rendering
add_tokens ps [] r = r
add_tokens ps (k ∷ ts) r = add_tokens ps ts (add_token ps k r)

cut_brace-valid_tail : (n t : Text) → valid_tail n ≡ true → cut_brace (n ++ b'}' ∷ t) ≡ some (n, t)
unfolding cut_brace valid_tail ascii_letter_or_underscore
cut_brace-valid_tail [] t h = refl
cut_brace-valid_tail (c ∷ n) t h = ground (arith, cut_brace-valid_tail n t)

cut_brace-valid :
    (n t : Text) → valid_parameter_name n ≡ true → cut_brace (n ++ b'}' ∷ t) ≡ some (n, t)
unfolding cut_brace valid_parameter_name
cut_brace-valid [] t h = cc
cut_brace-valid (c ∷ n) t h = ground (arith, cut_brace-valid_tail n t)

-- A cut undoes the brace.
append-cut_brace : (s n t : Text) → cut_brace s ≡ some (n, t) → s ≡ n ++ b'}' ∷ t
unfolding cut_brace
append-cut_brace [] n t h = cc
append-cut_brace (c ∷ s) n t h = elim (Bool-cases (c == b'}')) [
  | inl e ↦ ground arith
  | inr e ↦ elim (Option-cases (cut_brace s)) [
    | inl q ↦ ground arith
    | inr (p, q) ↦ ground (arith, append-cut_brace s p.0 p.1)
  ]
]

parse_placeholder-valid :
    (n t : Text) (i : ℕ)
    → valid_parameter_name n ≡ true
    → parse_placeholder (n ++ b'}' ∷ t) i ≡ ok (n, t, i + 2 + length n + 1)
unfolding parse_placeholder
parse_placeholder-valid n t i h = ground (arith, cut_brace-valid n t)

head-hole : (s : Text) → head (placeholder_open ++ s) ≡ opened s
unfolding head strip_prefix
head-hole s = refl

head-escape : (s : Text) → head (escaped_open ++ s) ≡ escaped s
unfolding head strip_prefix
head-escape s = refl

head-literal : (c : ℕ) (t : Text) → WellFormedAt (literal c) t → head (c ∷ t) ≡ byte c t
unfolding head
head-literal c t (p, q) = rw (p, q)

token_shorter : (k : Token) (t : Text) → length t < length (print_token k t)
token_shorter (literal c) t = omega arith
token_shorter (escape n) t = omega (arith, length-append n (b'}' ∷ t))
token_shorter (hole n) t = omega (arith, length-append n (b'}' ∷ t))

-- The loop does to a printed token what the token says, with the index moved on.
round-token :
    (loop : Goal.Loop) (ps : Parameters) (k : Token) (t : Text) (i : ℕ) (r : Rendering)
    → WellFormedAt k t
    → (j : ℕ) × (round loop ps (head (print_token k t)) i r ≡ loop t j (add_token ps k r))
unfolding round add_token
round-token loop ps (literal c) t i r w = (i + 1, rw (head-literal c t w))
round-token loop ps (escape n) t i r w = (
  i + 1 + 2 + length n + 1,
  rw (head-escape (n ++ b'}' ∷ t), parse_placeholder-valid n t (i + 1) w),
)
round-token loop ps (hole n) t i r w =
    (i + 2 + length n + 1, rw (head-hole (n ++ b'}' ∷ t), parse_placeholder-valid n t i w))

-- With fuel for its bytes the loop runs through a printed template.
pub render-print :
    (fuel : ℕ) (ps : Parameters) (ts : List Token) (i : ℕ) (r : Rendering)
    → length (print ts) < fuel
    → WellFormed ts
    → render fuel ps (print ts) i r ≡ ok (add_tokens ps ts r)
unfolding render print add_tokens
render-print zero ps ts i r h w = elim h [ ]
render-print (suc fuel) ps [] i r h w = unfold round head strip_prefix in refl
render-print (suc fuel) ps (k ∷ ts) i r h (w, ws) =
    let (j, e) = round-token (render fuel ps) ps k (print ts) i r w in
    e ∙ render-print fuel ps ts j (add_token ps k r) (omega (arith, token_shorter k (print ts))) ws

parse_placeholder_sound :
    (s n t : Text) (i j : ℕ)
    → parse_placeholder s i ≡ ok (n, t, j)
    → (valid_parameter_name n ≡ true) × (s ≡ n ++ b'}' ∷ t)
unfolding parse_placeholder
parse_placeholder_sound s n t i j h = elim (Option-cases (cut_brace s)) [
  | inl q ↦ ground arith
  | inr (p, q) ↦ ground (arith, append-cut_brace s p.0 p.1)
]

-- The text is the head that was seen and what stands behind it.
abbrev Shows : Text → Head → Type 0
Shows t at_end = t ≡ []
Shows t (escaped s) = t ≡ escaped_open ++ s
Shows t (opened s) = t ≡ placeholder_open ++ s
Shows t (byte c s) = (t ≡ c ∷ s) × WellFormedAt (literal c) s

Shows-plain :
    (t : Text)
    → strip_prefix escaped_open t ≡ none
    → strip_prefix placeholder_open t ≡ none
    → Shows t (head_of none none t)
Shows-plain [] p q = refl
Shows-plain (c ∷ t) p q = (refl, (p, q))

Shows-head : (t : Text) → Shows t (head t)
unfolding head
Shows-head t = elim (Option-cases (strip_prefix escaped_open t)) [
  | inr (s, e) ↦ rw e (append-strip_prefix escaped_open t s e)
  | inl e ↦ elim (Option-cases (strip_prefix placeholder_open t)) [
    | inr (s, q) ↦ rw (e, q) (append-strip_prefix placeholder_open t s q)
    | inl q ↦ rw (e, q) (Shows-plain t e q)
  ]
]

-- A round that succeeds has read one token, or has come to the end.
abbrev Read : Goal.Loop → Parameters → Text → Rendering → Rendering → Type 0
Read loop ps t r r' =
    ((t ≡ []) × (r' ≡ r))
    ⊎ ((k : Token) × (t' : Text) × (j : ℕ) × (t ≡ print_token k t')
        × WellFormedAt k t'
        × (loop t' j (add_token ps k r) ≡ ok r'))

round_sound :
    (loop : Goal.Loop) (ps : Parameters) (t : Text) (h : Head) (i : ℕ) (r r' : Rendering)
    → Shows t h
    → round loop ps h i r ≡ ok r'
    → Read loop ps t r r'
unfolding round add_token
round_sound loop ps t at_end i r r' s e = inl (s, cc)
round_sound loop ps t (byte c u) i r r' (s, w) e = inr (literal c, u, i + 1, s, w, e)
round_sound loop ps t (escaped u) i r r' s e = elim (Result-cases (parse_placeholder u (i + 1))) [
  | inl (x, q) ↦ absurd (ground arith)
  | inr ((n, v, j), q) ↦
      let (w, c) = parse_placeholder_sound u n v (i + 1) j q in
      inr (escape n, v, j, s ∙ ap (λ x. escaped_open ++ x) c, w, ground arith)
]
round_sound loop ps t (opened u) i r r' s e = elim (Result-cases (parse_placeholder u i)) [
  | inl (x, q) ↦ absurd (ground arith)
  | inr ((n, v, j), q) ↦
      let (w, c) = parse_placeholder_sound u n v i j q in
      inr (hole n, v, j, s ∙ ap (λ x. placeholder_open ++ x) c, w, ground arith)
]

-- What the loop accepts is a printed list of well-formed tokens.
pub render_sound :
    (fuel : ℕ) (ps : Parameters) (t : Text) (i : ℕ) (r r' : Rendering)
    → length t < fuel
    → render fuel ps t i r ≡ ok r'
    → (ts : List Token) × WellFormed ts × (t ≡ print ts) × (r' ≡ add_tokens ps ts r)
unfolding render print add_tokens
render_sound zero ps t i r r' h e = elim h [ ]
render_sound (suc fuel) ps t i r r' h e =
    elim (round_sound (render fuel ps) ps t (head t) i r r' (Shows-head t) e) [
      | inl (p, q) ↦ ([], tt, p, q)
      | inr (k, t', j, p, w, q) ↦
          let shorter : length t' < fuel = omega (arith, token_shorter k t', ap length p) in
          let (ts, ws, a, b) = render_sound fuel ps t' j (add_token ps k r) r' shorter q in
          (k ∷ ts, (rw (← a) w, ws), p ∙ ap (print_token k) a, b)
    ]
