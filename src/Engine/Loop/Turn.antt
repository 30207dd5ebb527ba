-- ===== src/Engine/Loop/Turn.antt =====
-- runtimes/reference/internal/engine/loop.go: providerTurn, and terminalStopFailure of engine.go.
use kontext.Prelude.{
  Bool, true, false, List, [], ◌∷◌, Option, none, some, Text, text, if◌then◌else◌,
}
use kontext.Api.{Time, Message as Report, plain, sprintf, sub_time}
use kontext.Result.{Usage as ReportedUsage}
use kontext.Engine.RuntimeApi.{
  ToolDefinition, ToolCall, StopReason, end_turn, max_tokens, stop_sequence, tool_use,
  content_filter, pause_turn, refusal, model_context_window_exceeded, CompletionRequest,
  CompletionResponse, append, validate_response, tool_calls, reason_text,
}
use kontext.Engine.Limits.{
  LimitViolation, check_before_provider_turn, check_after_response, remaining_token_budget,
  saturating_add, measured_tokens, add_usage,
}
use kontext.Engine.Envelopes.{milliseconds, success, envelope_usage}
use kontext.Engine.Loop.{
  Surroundings, Config, Machine, RunResult, TurnOutcome, paused, final, tool_batch, failed_turn,
  Reply, answer, failure, provider_completed, usage_measured, completed, next32, note, emit, clock,
  metadata, fail, fail_limit, normalize_error,
}

-- The code and the message.
abbrev pub terminal_stop_failure : StopReason → Text × Report
terminal_stop_failure max_tokens = (
  text "max_tokens_reached",
  plain (text "provider stopped before final output after reaching its token limit"),
)
terminal_stop_failure content_filter =
    (text "content_filtered", plain (text "provider filtered the response before final output"))
terminal_stop_failure refusal =
    (text "provider_refusal", plain (text "provider refused the request"))
terminal_stop_failure model_context_window_exceeded = (
  text "context_window_exceeded",
  plain (text "provider context window was exhausted before final output"),
)
terminal_stop_failure tool_use = (
  text "invalid_provider_response",
  plain (text "provider stopped for tool use without returning a tool call"),
)
terminal_stop_failure reason = (
  text "invalid_provider_response",
  sprintf (text "provider stopped without final output for reason %q") (reason_text reason ∷ []),
)

abbrev as_failed : RunResult × Machine → TurnOutcome × Machine
as_failed (r, m) = (failed_turn r, m)

abbrev pub is_tool_use : StopReason → Bool
is_tool_use tool_use = true
is_tool_use _ = false

abbrev count_turn : Machine → Machine
count_turn m = record m {
  state = record m.state {
    counters = record m.state.counters { turns = next32 m.state.counters.turns };
  };
}

abbrev with_request_id : CompletionResponse → Machine → Machine
with_request_id r m = record m { state = record m.state { last_request_id = r.request_id } }

abbrev count_usage : CompletionResponse → Machine → Machine
count_usage r m = record m {
  state = record m.state {
    usage = add_usage m.state.usage r.usage;
    counters = record m.state.counters {
      consumed_tokens = saturating_add m.state.counters.consumed_tokens (measured_tokens r.usage);
    };
  };
}

abbrev with_answer : CompletionResponse → Machine → Machine
with_answer r m = record m {
  state = record m.state { conversation = append m.state.conversation r.message };
}

abbrev pub emit_usage : Option ReportedUsage → Machine → Machine
emit_usage none m = m
emit_usage (some u) m = emit (usage_measured m.state.counters.turns u) m

module _ (env : Surroundings) (config : Config) where
  abbrev invalid : Report → CompletionResponse → Machine → TurnOutcome × Machine
  invalid message r m =
      as_failed (
        fail env config (text "invalid_provider_response") (env.render message) none r.request_id m)

  abbrev finished : CompletionResponse → Machine → TurnOutcome × Machine
  finished r m =
      let (md, m1) = metadata env config r.request_id m in
      (
        final r (record { envelope = success env.json r.message m.state.usage md; exit_code = 0 }),
        m1,
      )

  -- A response without tool calls.
  abbrev pub stopped : CompletionResponse → StopReason → Machine → TurnOutcome × Machine
  stopped r pause_turn m = (paused, m)
  stopped r end_turn m = finished r m
  stopped r stop_sequence m = finished r m
  stopped r reason m =
      let (code, message) = terminal_stop_failure reason in
      as_failed (fail env config code (env.render message) none r.request_id m)

  abbrev pub with_calls : CompletionResponse → List ToolCall → Machine → TurnOutcome × Machine
  with_calls r [] m = stopped r r.stop_reason m
  with_calls r (c ∷ cs) m =
      if is_tool_use r.stop_reason
      then (tool_batch r (c ∷ cs), m)
      else invalid
          (sprintf (text "provider returned tool calls with stop reason %q")
            (reason_text r.stop_reason ∷ []))
          r m

  abbrev pub within : Option LimitViolation → CompletionResponse → Machine → TurnOutcome × Machine
  within (some v) r m = as_failed (fail_limit env config v r.request_id m)
  within none r m = with_calls r (tool_calls r.message.content) (with_answer r m)

  -- The usage is counted and reported.
  abbrev measured : Time → CompletionResponse → Machine → Machine
  measured t0 r m =
      let (t1, m1) = clock env (count_usage r m) in
      emit_usage (envelope_usage r.usage) (
        emit
          (provider_completed m.state.counters.turns r.stop_reason (milliseconds (sub_time t1 t0)))
          m1)

  abbrev pub validated : Option Report → Time → CompletionResponse → Machine → TurnOutcome × Machine
  validated (some report) t0 r m =
      invalid (sprintf (text "provider returned an invalid response: %v") (env.render report ∷ []))
        r m
  validated none t0 r m =
      let m1 = measured t0 r m in within (check_after_response config.limits m1.state.counters) r m1

  abbrev pub answered : Reply CompletionResponse → Time → Machine → TurnOutcome × Machine
  answered (failure e) t0 m =
      let n = normalize_error env (env.context_error m.trace) e in
      as_failed (fail env config n.code n.message n.retryable n.request_id m)
  answered (answer r) t0 m = validated (validate_response env.is_json r) t0 r (with_request_id r m)

  abbrev request : List ToolDefinition → Machine → CompletionRequest
  request definitions m = record {
    model = config.model;
    messages = m.state.conversation;
    max_tokens = remaining_token_budget config.limits m.state.counters.consumed_tokens;
    tools = definitions;
  }

  abbrev pub begun : Option LimitViolation → List ToolDefinition → Machine → TurnOutcome × Machine
  begun (some v) definitions m = as_failed (fail_limit env config v m.state.last_request_id m)
  begun none definitions m =
      let (t0, m1) = clock env m in
      let m2 = count_turn m1 in
      let asked = request definitions m2 in
      answered (env.complete m2.trace asked) t0 (note (completed asked) m2)

  unfoldable pub provider_turn : List ToolDefinition → Machine → TurnOutcome × Machine
  provider_turn definitions m =
      begun (check_before_provider_turn config.limits m.state.counters) definitions m
