-- ===== src/Engine/Loop/Batch.antt =====
-- runtimes/reference/internal/engine/loop.go: executeToolBatch.
use kontext.Prelude.{List, [], ◌∷◌, ◌++◌, Option, none, some, Text, length, ℤ, pos, if◌then◌else◌}
use kontext.Api.{Time, sub_time}
use kontext.Engine.RuntimeApi.{
  tool, ContentBlock, tool_result, ToolCall, ToolResult, CompletionResponse, append,
}
use kontext.Engine.Limits.{
  LimitViolation, check_before_tool_call, check_before_tool_batch, apply_tool_output,
}
use kontext.Engine.Envelopes.{milliseconds}
use kontext.Engine.Loop.{
  Surroundings, Config, Machine, RunResult, Reply, answer, failure, tool_completed, executed,
  next32, note, emit, clock, fail, fail_limit, normalize_error,
}

abbrev pub Stopped : Type 0
Stopped = Option RunResult × Machine

abbrev as_stopped : RunResult × Machine → Stopped
as_stopped (r, m) = (some r, m)

abbrev count_call : Machine → Machine
count_call m = record m {
  state = record m.state {
    counters = record m.state.counters { tool_calls = next32 m.state.counters.tool_calls };
  };
}

abbrev with_total : ℤ → Machine → Machine
with_total total m = record m {
  state = record m.state { counters = record m.state.counters { total_tool_output_bytes = total } };
}

abbrev result_block : ToolResult → ContentBlock
result_block r = record { type = tool_result; text = []; tool_call = none; tool_result = some r }

abbrev with_results : List ContentBlock → Machine → Machine
with_results blocks m = record m {
  state = record m.state {
    conversation = append m.state.conversation (record { role = tool; content = blocks });
  };
}

module _ (env : Surroundings) (config : Config) where
  -- The rest of the batch, from the blocks so far.
  abbrev pub Rest : Type 0
  Rest = List ContentBlock → Machine → Stopped

  abbrev pub applied : Rest → Time → List ContentBlock → ToolResult × ℤ → Machine → Stopped
  applied rest t0 blocks (result, total) m =
      let (t1, m1) = clock env (with_total total m) in
      rest (blocks ++ result_block result ∷ []) (
        emit
          (tool_completed result m.state.counters.tool_calls (milliseconds (sub_time t1 t0))
            (if config.emit_tool_output then some result.content else none))
          m1)

  abbrev pub answered :
      Rest → Text → Time → List ContentBlock → Reply ToolResult → Machine → Stopped
  answered rest request_id t0 blocks (failure e) m =
      let n = normalize_error env (env.context_error m.trace) e in
      as_stopped (fail env config n.code n.message n.retryable request_id m)
  answered rest request_id t0 blocks (answer result) m =
      applied rest t0 blocks
        (apply_tool_output env.encoding config.limits result
          m.state.counters.total_tool_output_bytes)
        m

  abbrev pub call_tool :
      Rest → Text → ToolCall → List ContentBlock → Option LimitViolation → Machine → Stopped
  call_tool rest request_id call blocks (some v) m =
      as_stopped (fail_limit env config v request_id m)
  call_tool rest request_id call blocks none m =
      let (t0, m1) = clock env (count_call m) in
      answered rest request_id t0 blocks (env.execute m1.trace call) (note (executed call) m1)

  unfoldable pub call_tools : Text → List ToolCall → Rest
  call_tools request_id [] blocks m = (none, with_results blocks m)
  call_tools request_id (c ∷ cs) blocks m =
      call_tool (call_tools request_id cs) request_id c blocks
        (check_before_tool_call config.limits m.state.counters) m

  abbrev pub batch : Option LimitViolation → Text → List ToolCall → Machine → Stopped
  batch (some v) request_id calls m = as_stopped (fail_limit env config v request_id m)
  batch none request_id calls m = call_tools request_id calls [] m

  -- executeToolBatch, of a response's calls; `none` is the nil result.
  unfoldable pub execute_tool_batch : CompletionResponse → List ToolCall → Machine → Stopped
  execute_tool_batch r calls m =
      batch (check_before_tool_batch config.limits m.state.counters (pos (length calls)))
        r.request_id calls m
