-- ===== src/Engine/Tests.antt =====
-- A run that asks the provider twice, with a tool in between.
use kontext.Prelude.{
  ℕ, zero, suc, ◌≤◌, ◌<◌, ◌≡◌, refl, Bool, true, false, List, [], ◌∷◌, Option, none, some, Text,
  text, ℤ, pos, arith, length,
}
use kontext.Result.{Json}
use kontext.Engine.RuntimeApi.{
  assistant, text_block, tool_call, tool_use, end_turn, CompletionResponse, ToolCall,
  validate_response, validate_blocks, validate_usage, tool_calls, text_parts, message_text,
}
use kontext.Engine.ToolOutput.{Encoding, bound, truncate_utf8, shorten, search_prefix}
use kontext.Engine.Bounds.{IsBounded, bound-IsBounded}
use kontext.Engine.Limits.{LimitsPolicy}
use kontext.Engine.Loop.{
  Surroundings, Config, Trace, Reply, answer, failure, RunError, uncoded, no_usage, RunResult,
  Machine,
}
use kontext.Engine.Loop.Run.{run_config}
use kontext.Engine.Loop.Turns.{completions}
use kontext.Engine.Loop.Returns.{Returns, InRange, run_config-Returns}

abbrev quoted : Text → Option Text
quoted t = some (text "{\"partial\":\"x\"}")

abbrev bytes : Encoding
bytes = record { is_utf8 = λ t. true; encode_partial = quoted }

abbrev no_json : Json
no_json = record {
  object_keys = λ t. none;
  read_envelope = λ t. none;
  read_legacy = λ t. none;
  read_text = λ t. none;
  write_text = λ t. t;
  compact = λ t. none;
  is_valid = λ t. true;
}

abbrev call : ToolCall
call = record { id = text "1"; name = text "read"; arguments = text "{}" }

abbrev ask_tool : CompletionResponse
ask_tool = record {
  message = record {
    role = assistant;
    content =
        record { type = tool_call; text = []; tool_call = some call; tool_result = none } ∷ [];
  };
  usage = no_usage;
  stop_reason = tool_use;
  request_id = text "r1";
}

abbrev say_done : CompletionResponse
say_done = record {
  message = record {
    role = assistant;
    content =
        record { type = text_block; text = text "done"; tool_call = none; tool_result = none } ∷ [];
  };
  usage = no_usage;
  stop_reason = end_turn;
  request_id = text "r2";
}

abbrev second_is_last : ℕ → Reply CompletionResponse
second_is_last zero = answer ask_tool
second_is_last (suc n) = answer say_done

abbrev surroundings : Surroundings
surroundings = record {
  now = λ t. 5;
  context_error = λ t. none;
  resolve = λ t. none;
  has_tool_resolver = true;
  resolve_tools = λ t. record { has_executor = true; error = none };
  definitions = λ t. [];
  complete = λ t r. second_is_last (completions t);
  execute = λ t c. answer (record {
    call_id = c.id;
    name = c.name;
    content = text "0123456789";
    is_error = false;
    error_code = [];
    truncated = false;
  });
  close = λ t. none;
  error_text = λ e. [];
  render = λ m. m.format;
  is_json = λ t. true;
  json = no_json;
  encoding = bytes;
}

abbrev config : Config
config = record {
  run_name = text "run";
  agent_name = text "agent";
  provider = text "mock";
  model = text "m";
  goal = text "goal";
  emit_tool_output = false;
  limits = record {
    token_budget = none;
    max_turns = some (pos 2);
    max_tool_calls = none;
    max_tool_result_bytes = none;
    max_total_tool_output_bytes = some (pos 8);
  };
}

config-InRange : InRange config
config-InRange l e = ground arith

run_config_example : Returns config 2 (run_config surroundings config 3)
run_config_example =
    run_config-Returns surroundings config 2 refl (omega arith) config-InRange 3 (omega arith)

bound_example : IsBounded bytes (text "0123456789") 8 (bound bytes (text "0123456789") 8)
bound_example = bound-IsBounded bytes (text "0123456789") 8

exit_code : Option (RunResult × Machine) → Option ℕ
exit_code none = none
exit_code (some (r, m)) = some r.exit_code

-- The second request gives the result.
run_exits : exit_code (run_config surroundings config 3) ≡ some 0
unfolding exit_code run_config kontext.Engine.Loop.Run.turns kontext.Engine.Loop.Turn.provider_turn
    kontext.Engine.Limits.check_before_provider_turn kontext.Engine.Limits.reached
    kontext.Engine.Loop.new_loop_state completions validate_response validate_blocks
    kontext.Prelude.list_beq kontext.Prelude.trim_space validate_usage kontext.Prelude.◌-ℤ◌
    kontext.Engine.Limits.check_after_response tool_calls
    kontext.Engine.Loop.Batch.execute_tool_batch kontext.Engine.Limits.check_before_tool_batch
    kontext.Engine.Envelopes.envelope_usage kontext.Api.sub_time kontext.Api.wrap64
    kontext.Controller.Kube.wrap_int kontext.Engine.Envelopes.success
    kontext.Engine.Limits.add_metric kontext.Engine.Limits.add_usage
    kontext.Engine.Limits.allowed_bytes kontext.Engine.Limits.apply_tool_output
    kontext.Engine.Limits.batch_exceeds kontext.Engine.Limits.check_before_tool_call
    kontext.Engine.Limits.measured_tokens kontext.Engine.Limits.remaining_token_budget
    kontext.Engine.Limits.saturating_add kontext.Engine.Loop.Batch.call_tools
    kontext.Engine.Loop.Run.finish kontext.Engine.Loop.fail kontext.Engine.Loop.next32 message_text
    text_parts bound search_prefix shorten truncate_utf8 kontext.Prelude.is_space
    kontext.Prelude.join kontext.Prelude.trim_left kontext.Prelude.trim_right
run_exits = refl
