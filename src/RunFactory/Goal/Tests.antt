-- ===== src/RunFactory/Goal/Tests.antt =====
-- Runs of interpolateGoal.
use kontext.Prelude.{
  ◌≡◌, ◌↔◌, refl, [], ◌∷◌, List, Text, text, strip_prefix, map_get, set_add, text_mem, sort_texts,
  show_nat, list_beq,
}
use kontext.Api.{sprintf}
use kontext.RunFactory.Errors.{ResolutionError, invalid_template, ok, err}
use kontext.RunFactory.Goal.{
  Parameters, ascii_letter_or_underscore, valid_tail, valid_parameter_name, cut_brace,
  parse_placeholder, substitute, head, round, render, unused_names, check_unused, check_missing,
  finish, interpolate_goal, bad_template,
}
use kontext.RunFactory.Goal.Template.{Token, meaning}
use kontext.RunFactory.Goal.Meaning.{Accepts, interpolate_goal_iff}
use kontext.RunFactory.Goal.Invalid.{interpolate_goal-invalid}

abbrev pub template : Text
template = text "fix ${it}"

abbrev unterminated : ResolutionError
unterminated = bad_template (sprintf (text "unterminated placeholder at byte %d") (text "4" ∷ []))

pub interpolate_goal_all :
    interpolate_goal template ((text "it", text "all") ∷ []) ≡ ok (text "fix all")
unfolding interpolate_goal finish check_missing check_unused unused_names render round head
    substitute parse_placeholder cut_brace valid_parameter_name valid_tail
    ascii_letter_or_underscore strip_prefix map_get set_add text_mem list_beq
interpolate_goal_all = refl

interpolate_goal-unterminated : interpolate_goal (text "fix ${it") [] ≡ err unterminated
unfolding interpolate_goal finish check_missing check_unused unused_names render round head
    substitute parse_placeholder cut_brace valid_parameter_name valid_tail
    ascii_letter_or_underscore strip_prefix map_get set_add sort_texts show_nat
interpolate_goal-unterminated = refl

interpolate_goal_iff_example :
    (interpolate_goal template ((text "it", text "all") ∷ []) ≡ ok (text "fix all")) ↔ (
      (ts : List Token) × Accepts template ((text "it", text "all") ∷ []) ts
      × (text "fix all" ≡ meaning ((text "it", text "all") ∷ []) ts))
interpolate_goal_iff_example =
    interpolate_goal_iff template ((text "it", text "all") ∷ []) (text "fix all")

interpolate_goal-invalid_example :
    (unterminated.code ≡ invalid_template)
    × ((ps : Parameters) → interpolate_goal (text "fix ${it") ps ≡ err unterminated)
interpolate_goal-invalid_example =
    interpolate_goal-invalid (text "fix ${it") unterminated interpolate_goal-unterminated
      (λ e. absurd (cc e))
