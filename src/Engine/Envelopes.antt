-- ===== src/Engine/Envelopes.antt =====
-- runtimes/reference/internal/engine/envelope.go: what a run reports. encoding/json is a parameter.
use kontext.Prelude.{suc, ◌/◌, Bool, [], Option, none, some, Text, ℤ, pos, negsuc, ◌-ℤ◌}
use kontext.Api.{Time, Duration, sub_time}
use kontext.Result.{
  succeeded, failed, Timing, Execution, Envelope, Json, Usage as ReportedUsage, result_api_version,
  default_media_type,
}
use kontext.Engine.RuntimeApi.{ChatMessage, Usage, message_text}

pub record Metadata : Type 0 where
  pub provider : Text
  pub model : Text
  pub request_id : Text
  pub started_at : Time
  pub completed_at : Time
  pub turns : ℤ
  pub tool_calls : ℤ

-- Duration.Milliseconds, towards zero.
abbrev pub milliseconds : Duration → ℤ
milliseconds (pos n) = pos (n / 1000000)
milliseconds (negsuc n) = pos 0 -ℤ pos (suc n / 1000000)

abbrev reported : Option ℤ → Option ℤ → Option ℤ → Option ℤ → Option ReportedUsage
reported none none none none = none
reported i o t r = some (record {
  input_tokens = i;
  output_tokens = o;
  total_tokens = t;
  reasoning_tokens = r;
  dollars = none;
})

unfoldable pub envelope_usage : Usage → Option ReportedUsage
envelope_usage u = reported u.input_tokens u.output_tokens u.total_tokens u.reasoning_tokens

abbrev timing : Metadata → Timing
timing m = record {
  started_at = some m.started_at;
  completed_at = some m.completed_at;
  duration_millis = some (milliseconds (sub_time m.completed_at m.started_at));
  provider_latency_ms = none;
}

abbrev execution : Metadata → Execution
execution m = record {
  provider = m.provider;
  model = m.model;
  request_id = m.request_id;
  turns = some m.turns;
  tool_calls = some m.tool_calls;
}

-- Success.
unfoldable pub success : Json → ChatMessage → Usage → Metadata → Envelope
success json message usage m = record {
  api_version = result_api_version;
  outcome = succeeded;
  output =
      some (record {
        media_type = default_media_type;
        value = json.write_text (message_text message);
      });
  usage = envelope_usage usage;
  timing = some (timing m);
  execution = some (execution m);
  error = none;
  artifacts = [];
  extensions = [];
  truncation = none;
}

unfoldable pub failure_envelope : Text → Text → Option Bool → Metadata → Envelope
failure_envelope code message retryable m = record {
  api_version = result_api_version;
  outcome = failed;
  output = none;
  usage = none;
  timing = some (timing m);
  execution = some (execution m);
  error = some (record { code = code; message = message; retryable = retryable });
  artifacts = [];
  extensions = [];
  truncation = none;
}
