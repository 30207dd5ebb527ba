-- ===== src/Engine/Loop.antt =====
-- runtimes/reference/internal/engine/loop.go and the parts of engine.go it uses. A run is passed along with the
-- trace of what it did, its newest event first; the provider, the tools, the clock and the context are functions
-- of the trace. An error is what errors.Is and errors.As find in it.
pub mod Turn
pub mod Batch
pub mod Run
pub mod Turns
pub mod Returns
pub mod EmitFailure
use kontext.Prelude.{
  ℕ, Bool, true, false, ◌&&◌, ◌||◌, List, [], ◌∷◌, ◌++◌, Option, none, some, Text, text, length,
  ◌==◌, ℤ, pos, negsuc, ◌-ℤ◌, int_eq, if◌then◌else◌,
}
use kontext.Api.{Time, Message as Report, plain, sprintf, sub_time}
use kontext.Result.{Envelope, Json, Usage as ReportedUsage}
use kontext.Engine.RuntimeApi.{
  Role, tool, ContentBlock, tool_result, ToolCall, ToolResult, ToolDefinition, ChatMessage, Usage,
  StopReason, end_turn, max_tokens, stop_sequence, tool_use, content_filter, pause_turn, refusal,
  model_context_window_exceeded, CompletionRequest, CompletionResponse, new_conversation, append,
  validate_response, tool_calls, reason_text,
}
use kontext.Engine.ToolOutput.{Encoding}
use kontext.Engine.Limits.{
  LimitViolation, LimitsPolicy, Counters, check_before_provider_turn, check_after_response,
  check_before_tool_call, check_before_tool_batch, remaining_token_budget, apply_tool_output,
  saturating_add, measured_tokens, add_usage,
}
use kontext.Engine.Envelopes.{Metadata, milliseconds, success, failure_envelope, envelope_usage}

pub data ContextError : Type 0 where
  deadline_exceeded cancelled : ContextError

-- `coded` is a CodedError.
pub data RunError : Type 0 where
  context : ContextError → RunError
  provider_error : Text → Text → Option Bool → Text → RunError
  configuration : Text → Text → RunError
  coded : Text → Text → RunError
  uncoded : Text → RunError

pub data Reply (A : Type 0) : Type 0 where
  answer : A → Reply A
  failure : RunError → Reply A

-- What the emitter is given.
pub data Emission : Type 0 where
  started : Text → Text → Text → Text → Emission
  tools_available : List Text → Emission
  provider_completed : ℤ → StopReason → ℤ → Emission
  usage_measured : ℤ → ReportedUsage → Emission
  tool_completed : ToolResult → ℤ → ℤ → Option Text → Emission
  output_ready : Text → Emission
  error_raised : Text → Text → Option Bool → Emission

pub data Event : Type 0 where
  clock_read : Time → Event
  emitted : Emission → Event
  provider_resolved tools_resolved tools_listed tools_closed : Event
  completed : CompletionRequest → Event
  executed : ToolCall → Event

abbrev pub Trace : Type 0
Trace = List Event

-- ResolveToolsContext may return an executor together with an error.
pub record ResolvedTools : Type 0 where
  pub has_executor : Bool
  pub error : Option RunError

pub record Config : Type 0 where
  pub run_name : Text
  pub agent_name : Text
  pub provider : Text
  pub model : Text
  pub goal : Text
  pub emit_tool_output : Bool
  pub limits : LimitsPolicy

-- Everything outside the engine; `render` is fmt.Sprintf, `json` and `encoding` are encoding/json.
pub record Surroundings : Type 0 where
  pub now : Trace → Time
  pub context_error : Trace → Option ContextError
  pub resolve : Trace → Option RunError
  pub has_tool_resolver : Bool
  pub resolve_tools : Trace → ResolvedTools
  pub definitions : Trace → List ToolDefinition
  pub complete : Trace → CompletionRequest → Reply CompletionResponse
  pub execute : Trace → ToolCall → Reply ToolResult
  pub close : Trace → Option RunError
  pub error_text : RunError → Text
  pub render : Report → Text
  pub is_json : Text → Bool
  pub json : Json
  pub encoding : Encoding

pub record LoopState : Type 0 where
  pub conversation : List ChatMessage
  pub usage : Usage
  pub counters : Counters
  pub last_request_id : Text
  pub started_at : Time

pub record Machine : Type 0 where
  pub state : LoopState
  pub trace : Trace

pub record RunResult : Type 0 where
  pub envelope : Envelope
  pub exit_code : ℕ

pub data TurnOutcome : Type 0 where
  paused : TurnOutcome
  final : CompletionResponse → RunResult → TurnOutcome
  tool_batch : CompletionResponse → List ToolCall → TurnOutcome
  failed_turn : RunResult → TurnOutcome

-- What is reported of an error.
pub record Normalized : Type 0 where
  pub code : Text
  pub message : Text
  pub retryable : Option Bool
  pub request_id : Text

abbrev pub no_usage : Usage
no_usage = record {
  input_tokens = none;
  output_tokens = none;
  total_tokens = none;
  reasoning_tokens = none;
}

abbrev pub no_counts : Counters
no_counts = record {
  consumed_tokens = pos 0;
  total_tool_output_bytes = pos 0;
  turns = pos 0;
  tool_calls = pos 0;
}

-- An int32 and one more.
unfoldable pub next32 : ℤ → ℤ
next32 n = if n == pos 2147483647 then negsuc 2147483647 else n -ℤ negsuc 0

abbrev pub note : Event → Machine → Machine
note e m = record m { trace = e ∷ m.trace }

abbrev pub emit : Emission → Machine → Machine
emit e m = note (emitted e) m

abbrev pub emit_error : Text → Text → Option Bool → Machine → Machine
emit_error code message retryable m = emit (error_raised code message retryable) m

abbrev is_deadline : RunError → Bool
is_deadline (context deadline_exceeded) = true
is_deadline _ = false

abbrev is_cancelled : RunError → Bool
is_cancelled (context cancelled) = true
is_cancelled _ = false

abbrev context_is : (RunError → Bool) → Option ContextError → Bool
context_is test none = false
context_is test (some e) = test (context e)

abbrev pub or_text : Text → Text → Text
or_text default [] = default
or_text default (c ∷ t) = c ∷ t

module _ (env : Surroundings) where
  abbrev of_error : RunError → Normalized
  of_error (provider_error code message retryable request_id) = record {
    code = code;
    message = message;
    retryable = retryable;
    request_id = request_id;
  }
  of_error (configuration code message) = record {
    code = or_text (text "invalid_provider_configuration") code;
    message = message;
    retryable = none;
    request_id = [];
  }
  of_error e = record {
    code = text "provider_error";
    message = env.error_text e;
    retryable = none;
    request_id = [];
  }

  unfoldable pub normalize_error : Option ContextError → RunError → Normalized
  normalize_error ctx e =
      if context_is is_deadline ctx || is_deadline e
      then record {
        code = text "deadline_exceeded";
        message = text "runtime wallclock limit exceeded";
        retryable = some true;
        request_id = [];
      }
      else if context_is is_cancelled ctx || is_cancelled e
      then record {
        code = text "cancelled";
        message = text "runtime execution was cancelled";
        retryable = some true;
        request_id = [];
      }
      else of_error e

  abbrev pub clock : Machine → Time × Machine
  clock m = let t = env.now m.trace in (t, note (clock_read t) m)

  -- newLoopState, on the trace so far.
  unfoldable pub new_loop_state : Text → Trace → Machine
  new_loop_state goal trace =
      let t = env.now trace in
      record {
        state = record {
          conversation = new_conversation goal;
          usage = no_usage;
          counters = no_counts;
          last_request_id = [];
          started_at = t;
        };
        trace = clock_read t ∷ trace;
      }

  module _ (config : Config) where
    abbrev pub metadata : Text → Machine → Metadata × Machine
    metadata request_id m =
        let (t, m1) = clock m in
        (
          record {
            provider = config.provider;
            model = config.model;
            request_id = request_id;
            started_at = m.state.started_at;
            completed_at = t;
            turns = m.state.counters.turns;
            tool_calls = m.state.counters.tool_calls;
          },
          m1,
        )

    unfoldable pub fail : Text → Text → Option Bool → Text → Machine → RunResult × Machine
    fail code message retryable request_id m =
        let (md, m1) = metadata request_id (emit_error code message retryable m) in
        (
          record {
            envelope = record (failure_envelope code message retryable md) {
              usage = envelope_usage m.state.usage;
            };
            exit_code = 1;
          },
          m1,
        )

    abbrev pub fail_limit : LimitViolation → Text → Machine → RunResult × Machine
    fail_limit v request_id m = fail v.code v.message (some false) request_id m
