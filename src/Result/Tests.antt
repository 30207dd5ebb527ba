-- ===== src/Result/Tests.antt =====
-- Runs of the result parser, with a toy of encoding/json.
use kontext.Prelude.{
  ◌≡◌, refl, true, false, [], ◌∷◌, Option, none, some, Text, text, strip_prefix, trim_space,
  trim_left, trim_right, is_space, list_beq, list_eq, nat_eq,
}
use kontext.Result.{
  Json, Envelope, succeeded, result_api_version, parsed, parse, parse_versioned, validate,
  validate_artifacts, validate_extensions, plain_text, is_blank,
}
use kontext.Result.Valid.{parse_versioned-valid, plain_text-parse}

abbrev pub good : Envelope
good = record {
  api_version = result_api_version;
  outcome = succeeded;
  output = none;
  usage = none;
  timing = none;
  execution = none;
  error = none;
  artifacts = [];
  extensions = [];
  truncation = none;
}

abbrev behind_quote : Text → Option Text
behind_quote [] = none
behind_quote (c ∷ t) = some t

-- A string is written behind one quote; every object is `good`.
abbrev pub toy_json : Json
toy_json = record {
  object_keys = λ t. some (text "apiVersion" ∷ []);
  read_envelope = λ t. some good;
  read_legacy = λ t. none;
  read_text = behind_quote;
  write_text = λ t. b'"' ∷ t;
  compact = λ t. some t;
  is_valid = λ t. true;
}

good-parse_versioned : parse_versioned toy_json (text "{}") ≡ some good
unfolding parse_versioned parse validate validate_artifacts validate_extensions strip_prefix
    trim_space trim_left trim_right is_space list_beq
good-parse_versioned = refl

parse_versioned_example : validate toy_json good ≡ none
parse_versioned_example = parse_versioned-valid toy_json (text "{}") good good-parse_versioned

done-shown : is_blank (toy_json.write_text (trim_space (text " done "))) ≡ false
unfolding trim_space trim_left trim_right is_space list_beq
done-shown = refl

done-trim : trim_space (text " done ") ≡ text "done"
unfolding trim_space trim_left trim_right is_space
done-trim = refl

done-plain : strip_prefix (text "{") (trim_space (text " done ")) ≡ none
unfolding strip_prefix trim_space trim_left trim_right is_space
done-plain = refl

plain_text_example :
    (e : Envelope) × (parse toy_json (text " done ") ≡ parsed e true)
    × (plain_text toy_json e.output ≡ trim_space (text " done "))
plain_text_example =
    plain_text-parse toy_json (text " done ") refl done-shown (λ e. cc (done-trim, e)) done-plain

-- A no-break space is space.
no_break_space-trim : trim_space (194 ∷ 160 ∷ b'a' ∷ 226 ∷ 128 ∷ 131 ∷ b' ' ∷ []) ≡ text "a"
unfolding trim_space trim_left trim_right is_space
no_break_space-trim = refl
