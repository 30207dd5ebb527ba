-- ===== src/RunFactory/Goal.antt =====
-- internal/runfactory/runfactory.go: the goal of an invocation. A template is read through the
-- suffix `template[index:]` with the index beside it; the loop has fuel, one unit for each round.
pub mod Template
pub mod Loop
pub mod Meaning
pub mod Invalid
pub mod Tests
use kontext.Prelude.{
  ℕ, zero, suc, ◌+◌, Bool, true, false, ◌&&◌, ◌||◌, not, List, [], ◌∷◌, ◌++◌, map, Option, none,
  some, Text, text, leb, ltb, length, ◌==◌, nat_eq, list_eq, bool_eq, is_some, strip_prefix,
  map_get, keys, sort_texts, set_add, text_mem, show_nat, if◌then◌else◌,
}
use kontext.Api.{AgentSpec, Message, plain, sprintf}
use kontext.RunFactory.Errors.{
  ResolutionError, invalid_template, missing_parameters, unused_parameters, error_of, Result, ok,
  err, ◌>>=◌,
}

-- A map[string]string; nil is told apart from the empty map by its users.
abbrev pub Parameters : Type 0
Parameters = List (Text × Text)

pub ascii_letter_or_underscore : ℕ → Bool
ascii_letter_or_underscore c = c == b'_' || (leb b'a' c && leb c b'z') || (leb b'A' c && leb c b'Z')

abbrev is_digit : ℕ → Bool
is_digit c = leb b'0' c && leb c b'9'

-- The loop over name[1:].
pub valid_tail : Text → Bool
valid_tail [] = true
valid_tail (c ∷ s) =
    if not (ascii_letter_or_underscore c) && not (is_digit c) then false else valid_tail s

pub valid_parameter_name : Text → Bool
unfolding valid_tail ascii_letter_or_underscore
valid_parameter_name [] = false
valid_parameter_name (c ∷ s) = ascii_letter_or_underscore c && valid_tail s

-- strings.IndexByte(s, '}'), as what stands before the brace and what stands behind it.
pub cut_brace : Text → Option (Text × Text)
cut_brace [] = none
cut_brace (c ∷ s) =
    if c == b'}'
    then some ([], s)
    else elim (cut_brace s) [ none ↦ none | some (name, rest) ↦ some (c ∷ name, rest) ]

abbrev pub bad_template : Message → ResolutionError
bad_template d = record (error_of invalid_template) { detail = d }

-- parsePlaceholder: `s` stands behind the "${" at byte `start`. The name, the text behind the
-- closing brace and its index.
pub parse_placeholder : Text → ℕ → Result (Text × Text × ℕ)
parse_placeholder s start = elim (cut_brace s) [
  | none ↦
      err
        (bad_template (sprintf (text "unterminated placeholder at byte %d") (show_nat start ∷ [])))
  | some (name, rest) ↦
      if not (valid_parameter_name name)
      then err (
          bad_template
            (sprintf (text "invalid placeholder %q at byte %d") (name ∷ show_nat start ∷ [])))
      else ok (name, rest, start + 2 + length name + 1)
]

-- The builder and the two sets of the loop.
pub record Rendering : Type 0 where
  pub rendered : Text
  pub used : List Text
  pub missing : List Text

abbrev pub write : Text → Rendering → Rendering
write s r = record r { rendered = r.rendered ++ s }

pub substitute : Text → Option Text → Rendering → Rendering
substitute name none r = record r { missing = set_add name r.missing }
substitute name (some value) r = record r {
  rendered = r.rendered ++ value;
  used = set_add name r.used;
}

abbrev pub escaped_open : Text
escaped_open = b'$' ∷ b'$' ∷ b'{' ∷ []

abbrev pub placeholder_open : Text
placeholder_open = b'$' ∷ b'{' ∷ []

-- What stands at the head of the rest of the template.
pub data Head : Type 0 where
  at_end : Head
  escaped opened : Text → Head
  byte : ℕ → Text → Head

abbrev pub head_of : Option Text → Option Text → Text → Head
head_of (some s) _ _ = escaped s
head_of none (some s) _ = opened s
head_of none none [] = at_end
head_of none none (c ∷ s) = byte c s

pub head : Text → Head
head t = head_of (strip_prefix escaped_open t) (strip_prefix placeholder_open t) t

-- The loop of interpolateGoal; a body of one round takes the loop for the rounds that are left.
-- Without fuel the rendering so far is returned.
abbrev pub Loop : Type 0
Loop = Text → ℕ → Rendering → Result Rendering

pub round : Loop → Parameters → Head → ℕ → Rendering → Result Rendering
round loop ps at_end index r = ok r
round loop ps (escaped s) index r = parse_placeholder s (index + 1) >>= λ (name, rest, next).
    loop rest next (write (placeholder_open ++ name ++ text "}") r)
round loop ps (opened s) index r = parse_placeholder s index >>= λ (name, rest, next).
    loop rest next (substitute name (map_get name ps) r)
round loop ps (byte c s) index r = loop s (index + 1) (write (c ∷ []) r)

pub render : ℕ → Parameters → Loop
render zero ps t index r = ok r
render (suc fuel) ps t index r = round (render fuel ps) ps (head t) index r

abbrev pub empty_rendering : Rendering
empty_rendering = record { rendered = []; used = []; missing = [] }

-- The keys that are not in `used`.
pub unused_names : List Text → List Text → List Text
unused_names used [] = []
unused_names used (k ∷ ks) =
    if text_mem k used then unused_names used ks else set_add k (unused_names used ks)

abbrev named_error : List Text → ResolutionError → ResolutionError
named_error ns e = record e { names = sort_texts ns }

pub check_unused : List Text → Text → Result Text
check_unused [] t = ok t
check_unused (n ∷ ns) t = err (named_error (n ∷ ns) (error_of unused_parameters))

pub check_missing : List Text → Result (Unit {0})
check_missing [] = ok tt
check_missing (n ∷ ns) = err (named_error (n ∷ ns) (error_of missing_parameters))

pub finish : Parameters → Rendering → Result Text
finish ps r =
    check_missing r.missing >>= λ _. check_unused (unused_names r.used (keys ps)) r.rendered

-- One round for each byte, and one for the end.
pub interpolate_goal : Text → Parameters → Result Text
interpolate_goal template ps =
    render (suc (length template)) ps template 0 empty_rendering >>= finish ps

abbrev pub given : Option Parameters → Parameters
given none = []
given (some ps) = ps

abbrev pub not_one_goal : ResolutionError
not_one_goal =
    bad_template (plain (text "Task Agent must configure exactly one of goal or goalTemplate"))

abbrev pub static_goal : Text → Option Parameters → Result Text
static_goal goal none = ok goal
static_goal goal (some ps) = err (named_error (keys ps) (error_of unused_parameters))

-- `none` is a nil map.
unfoldable pub resolve_task_goal : AgentSpec → Option Parameters → Result Text
resolve_task_goal spec parameters =
    let has_goal = not (spec.goal == []) in
    let has_template = not (spec.goal_template == []) in
    if has_goal == has_template
    then err not_one_goal
    else if has_goal
    then static_goal spec.goal parameters
    else interpolate_goal spec.goal_template (given parameters)
