-- ===== src/Result/Compact/Tests.antt =====
-- A run of Compact, with an output that does not fit.
use kontext.Prelude.{
  ◌≡◌, refl, Option, none, some, Text, text, [], ◌∷◌, ◌++◌, ap, show_int, show_nat, trim_space,
  trim_left, trim_right, is_space, list_beq, arith,
}
use kontext.Result.{
  Json, Envelope, Output, Truncation, validate, validate_artifacts, validate_extensions,
  default_media_type,
}
use kontext.Result.Tests.{good, toy_json}
use kontext.Result.Compact.{encoded, compact_envelope}
use kontext.Result.Compact.Loss.{Fits}
use kontext.Result.Compact.Total.{compact_envelope_total}

abbrev big : Envelope
big = record good {
  output = some (record { media_type = default_media_type; value = text "0123456789" });
}

-- An envelope is written as its output, or as the number of bytes in its marker.
abbrev write_marker : Option Truncation → Text
write_marker none = []
write_marker (some t) = show_int t.original_bytes

abbrev write_output : Option Output → Option Truncation → Option Text
write_output none t = some (b'{' ∷ write_marker t ++ text "}")
write_output (some o) t = some o.value

abbrev write : Envelope → Option Text
write e = write_output e.output e.truncation

abbrev json : Json
json = record toy_json { read_envelope = λ t. some big }

big_valid : validate json big ≡ none
unfolding validate validate_artifacts validate_extensions trim_space trim_left trim_right is_space
    list_beq
big_valid = refl

compact_example :
    (out : Text) × ((compact_envelope json write big 8 ≡ encoded out) × Fits json write big 8 out)
unfolding show_int show_nat
compact_example =
    compact_envelope_total json write big 8 (text "0123456789") big_valid refl refl refl
      (λ t e. (text "{10}", (ap (λ n. some (b'{' ∷ show_int n ++ text "}")) e, omega arith)))

compact_minimal : compact_envelope json write big 8 ≡ encoded (text "{10}")
unfolding compact_envelope show_int show_nat validate validate_artifacts validate_extensions
    trim_space trim_left trim_right is_space list_beq
compact_minimal = refl
