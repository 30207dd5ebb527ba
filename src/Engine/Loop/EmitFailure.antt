-- ===== src/Engine/Loop/EmitFailure.antt =====
-- runtimes/reference/internal/engine/envelope.go: EmitFailure, for a run that cannot start.
use kontext.Prelude.{Bool, ◌∷◌, Option, Text}
use kontext.Result.{Json, Envelope}
use kontext.Result.Compact.{Compacted}
use kontext.Result.Stream.{write_envelope_line}
use kontext.Engine.Envelopes.{Metadata, failure_envelope}
use kontext.Engine.Loop.{Trace, emitted, error_raised}

-- The trace with the error event, and the line that is written or the error.
unfoldable pub emit_failure :
    Json
    → (Envelope → Option Text)
    → Text
    → Text
    → Option Bool
    → Metadata
    → Trace
    → Trace × Compacted
emit_failure json marshal code message retryable metadata trace = (
  emitted (error_raised code message retryable) ∷ trace,
  write_envelope_line json marshal (failure_envelope code message retryable metadata),
)
