-- ===== src/Engine/Loop/Run.antt =====
-- runtimes/reference/internal/engine/engine.go: Runner.Run, run, finish and cleanupToolExecutor. A loop takes one
-- unit of fuel for each turn; the executor, once resolved, is there.
use kontext.Prelude.{
  ℕ, zero, suc, Bool, true, false, List, [], ◌∷◌, Option, none, some, Text, text, ◌==◌, nat_eq,
  if◌then◌else◌,
}
use kontext.Api.{sprintf}
use kontext.Result.{Output}
use kontext.Engine.RuntimeApi.{ToolDefinition, CompletionResponse, message_text}
use kontext.Engine.ToolOutput.{truncate_utf8}
use kontext.Engine.Loop.{
  Surroundings, Config, Machine, RunResult, TurnOutcome, paused, final, tool_batch, failed_turn,
  RunError, configuration, coded, started, tools_available, output_ready, provider_resolved,
  tools_resolved, tools_listed, tools_closed, note, emit, emit_error, or_text, fail, new_loop_state,
}
use kontext.Engine.Loop.Turn.{provider_turn}
use kontext.Engine.Loop.Batch.{execute_tool_batch}

abbrev names : List ToolDefinition → List Text
names [] = []
names (d ∷ ds) = d.name ∷ names ds

abbrev pub list_tools : List ToolDefinition → Machine → Machine
list_tools [] m = m
list_tools (d ∷ ds) m = emit (tools_available (names (d ∷ ds))) m

abbrev with_output : Option Output → RunResult → RunResult
with_output output r = record r { envelope = record r.envelope { output = output } }

abbrev pub emit_output : Option Output → Text → Machine → Machine
emit_output none value m = m
emit_output (some output) value m = emit (output_ready value) m

abbrev provider_code : RunError → Text
provider_code (configuration code message) = or_text (text "invalid_provider_configuration") code
provider_code e = text "unsupported_provider"

abbrev tool_code : RunError → Text
tool_code (coded code message) = or_text (text "invalid_tool_configuration") code
tool_code e = text "invalid_tool_configuration"

module _ (env : Surroundings) (config : Config) where
  abbrev pub cleaned : Option RunError → RunResult → Machine → RunResult × Machine
  cleaned none r m = (r, m)
  cleaned (some e) r m =
      let message =
        truncate_utf8 env.encoding
          (env.render (sprintf (text "tool cleanup failed: %v") (env.error_text e ∷ []))) 4096 in
      if r.exit_code == 0
      then (let (failure, m1) =
            fail env config (text "tool_cleanup_failed") message none m.state.last_request_id m in
          (with_output r.envelope.output failure, m1))
      else (r, emit_error (text "tool_cleanup_failed") message none m)

  -- cleanupToolExecutor, the executor being there.
  unfoldable pub finish : RunResult × Machine → RunResult × Machine
  finish (r, m) = cleaned (env.close m.trace) r (note tools_closed m)

  abbrev pub finish_output : CompletionResponse → RunResult × Machine → RunResult × Machine
  finish_output response (r, m) =
      (r, emit_output r.envelope.output (message_text response.message) m)

  -- The run that goes on from a machine.
  abbrev pub Rest : Type 0
  Rest = Machine → Option (RunResult × Machine)

  abbrev pub after_batch : Rest → Option RunResult × Machine → Option (RunResult × Machine)
  after_batch rest (some r, m) = some (finish (r, m))
  after_batch rest (none, m) = rest m

  abbrev pub after_turn : Rest → TurnOutcome × Machine → Option (RunResult × Machine)
  after_turn rest (paused, m) = rest m
  after_turn rest (final response r, m) = some (finish_output response (finish (r, m)))
  after_turn rest (failed_turn r, m) = some (finish (r, m))
  after_turn rest (tool_batch response calls, m) =
      after_batch rest (execute_tool_batch env config response calls m)

  unfoldable pub turns : ℕ → List ToolDefinition → Rest
  turns zero definitions m = none
  turns (suc fuel) definitions m =
      after_turn (turns fuel definitions) (provider_turn env config definitions m)

  abbrev pub run : ℕ → Machine → Option (RunResult × Machine)
  run fuel m =
      let definitions = env.definitions m.trace in
      turns fuel definitions (list_tools definitions (note tools_listed m))

  abbrev pub finish_if : Bool → RunResult × Machine → RunResult × Machine
  finish_if true r = finish r
  finish_if false r = r

  abbrev pub with_tools : ℕ → Option RunError → Bool → Machine → Option (RunResult × Machine)
  with_tools fuel (some e) has_executor m =
      some (finish_if has_executor (fail env config (tool_code e) (env.error_text e) none [] m))
  with_tools fuel none true m = run fuel m
  with_tools fuel none false m = some (
      fail env config (text "invalid_tool_configuration")
        (text "tool resolver returned a nil tool executor") none [] m)

  abbrev pub with_provider : ℕ → Option RunError → Machine → Option (RunResult × Machine)
  with_provider fuel (some e) m =
      some (fail env config (provider_code e) (env.error_text e) none [] m)
  with_provider fuel none m =
      let tools = env.resolve_tools m.trace in
      with_tools fuel tools.error tools.has_executor (note tools_resolved m)

  -- Runner.Run, on an empty trace.
  unfoldable pub run_config : ℕ → Option (RunResult × Machine)
  run_config fuel =
      let m =
        emit (started config.run_name config.agent_name config.provider config.model)
          (new_loop_state env config.goal []) in
      if env.has_tool_resolver
      then with_provider fuel (env.resolve m.trace) (note provider_resolved m)
      else some (
          fail env config (text "invalid_tool_configuration") (text "tool resolver is required")
            none [] m)
