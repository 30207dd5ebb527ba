-- ===== src/Result/Stream.antt =====
-- pkg/result/v1alpha1/stream.go: the line that carries an envelope. The writer is what a line is handed to.
use kontext.Prelude.{ℕ, [], ◌∷◌, ◌++◌, Option, none, some, Text, text, strip_prefix, trim_space}
use kontext.Result.{Json, Envelope}
use kontext.Result.Compact.{Compacted, encoded, rejected, compact_envelope}

abbrev pub envelope_line_prefix : Text
envelope_line_prefix = text "KONTEXT_RESULT:"

abbrev pub max_termination_message_bytes : ℕ
max_termination_message_bytes = 4096

abbrev line_of : Compacted → Compacted
line_of (encoded payload) = encoded (envelope_line_prefix ++ b' ' ∷ payload ++ b'\n' ∷ [])
line_of (rejected m) = rejected m

-- WriteEnvelopeLine: the line that is written, or the error.
unfoldable pub write_envelope_line : Json → (Envelope → Option Text) → Envelope → Compacted
write_envelope_line json marshal e =
    line_of (compact_envelope json marshal e max_termination_message_bytes)

abbrev trim_payload : Option Text → Option Text
trim_payload none = none
trim_payload (some t) = some (trim_space t)

-- ExtractEnvelopePayload.
unfoldable pub extract_envelope_payload : Text → Option Text
extract_envelope_payload line = trim_payload (strip_prefix envelope_line_prefix (trim_space line))
