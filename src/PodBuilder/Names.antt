-- ===== src/PodBuilder/Names.antt =====
-- internal/podbuilder/podbuilder.go: PodNameForRun and LegacyPodNameForRun. strings.ToLower is read on
-- ASCII text; the first eight hexadecimal digits of the SHA-256 of a name are a parameter.
use kontext.Prelude.{
  ℕ, ◌-◌, Bool, false, ◌&&◌, ◌||◌, not, [], ◌∷◌, ◌++◌, Text, text, leb, length, take, ◌==◌, nat_eq,
  list_eq, to_lower, if◌then◌else◌,
}
use kontext.Schedule.RunNames.{trim_dashes}

abbrev pub pod_name_prefix : Text
pod_name_prefix = text "run-"

abbrev pub max_pod_name_length : ℕ
max_pod_name_length = 63

abbrev pub max_unhashed_run_name_length : ℕ
max_unhashed_run_name_length = 56

abbrev pub is_name_char : ℕ → Bool
is_name_char c = (leb b'a' c && leb c b'z') || (leb b'0' c && leb c b'9') || c == b'-'

-- ReplaceAllString of [^a-z0-9-]+ by "-"; the flag tells whether the last character was replaced.
unfoldable pub replace_invalid : Bool → Text → Text
replace_invalid in_run [] = []
replace_invalid in_run (c ∷ s) =
    let rest = replace_invalid (not (is_name_char c)) s in
    if is_name_char c then c ∷ rest else if in_run then rest else b'-' ∷ rest

-- strings.TrimLeft(s, "-").
unfoldable pub trim_left_dashes : Text → Text
trim_left_dashes [] = []
trim_left_dashes (c ∷ s) = if c == b'-' then trim_left_dashes s else c ∷ s

-- strings.Trim(s, "-").
abbrev pub trim_both : Text → Text
trim_both s = trim_dashes (trim_left_dashes s)

abbrev pub or_run : Text → Text
or_run s = if s == [] then text "run" else s

unfoldable pub sanitized_run_name : Text → Text
sanitized_run_name run_name = or_run (trim_both (replace_invalid false (to_lower run_name)))

unfoldable pub pod_name_for_run : (Text → Text) → Text → Text
pod_name_for_run hash8 run_name =
    let safe = sanitized_run_name run_name in
    let hash = hash8 run_name in
    let prefix_length = max_pod_name_length - length pod_name_prefix - 1 - length hash in
    if leb (length safe) max_unhashed_run_name_length
    then pod_name_prefix ++ safe
    else pod_name_prefix ++ (trim_dashes (take prefix_length safe) ++ b'-' ∷ hash)

abbrev pub cut : Text → Text
cut s =
    if leb (length s) max_unhashed_run_name_length then s else take max_unhashed_run_name_length s

unfoldable pub legacy_pod_name_for_run : Text → Text
legacy_pod_name_for_run run_name =
    pod_name_prefix ++ or_run (trim_both (cut (sanitized_run_name run_name)))
