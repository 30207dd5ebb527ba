-- ===== src/Engine/Limits.antt =====
-- runtimes/reference/internal/engine/limits.go. An int64 is an integer with its wrap-around written out;
-- an int32 counter is given as the integer it holds.
use kontext.Prelude.{
  ℕ, Bool, true, false, ◌&&◌, ◌||◌, Option, none, some, Text, text, length, ℤ, pos, negsuc, ltb_ℤ,
  leb_ℤ, ◌-ℤ◌, pos_part, if◌then◌else◌,
}
use kontext.Api.{max_int64}
use kontext.Controller.Kube.{wrap_int}
use kontext.Engine.RuntimeApi.{ToolResult, Usage}
use kontext.Engine.ToolOutput.{Encoding, Bounded, bound}

pub record LimitViolation : Type 0 where
  pub code : Text
  pub message : Text

pub record LimitsPolicy : Type 0 where
  pub token_budget : Option ℤ
  pub max_turns : Option ℤ
  pub max_tool_calls : Option ℤ
  pub max_tool_result_bytes : Option ℤ
  pub max_total_tool_output_bytes : Option ℤ

-- The counters of loopState that limits are compared with.
pub record Counters : Type 0 where
  pub consumed_tokens : ℤ
  pub total_tool_output_bytes : ℤ
  pub turns : ℤ
  pub tool_calls : ℤ

abbrev pub add64 : ℤ → ℤ → ℤ
add64 a b = wrap_int (a -ℤ (pos 0 -ℤ b))

abbrev pub sub64 : ℤ → ℤ → ℤ
sub64 a b = wrap_int (a -ℤ b)

abbrev pub min_int64 : ℤ
min_int64 = negsuc max_int64

unfoldable pub reached : Option ℤ → ℤ → Bool
reached none value = false
reached (some limit) value = leb_ℤ limit value

unfoldable pub batch_exceeds : Option ℤ → ℤ → ℤ → Bool
batch_exceeds none consumed requested = false
batch_exceeds (some limit) consumed requested =
    let remaining = sub64 limit consumed in ltb_ℤ remaining (pos 0) || ltb_ℤ remaining requested

abbrev violation : Bool → Text → Text → Option LimitViolation → Option LimitViolation
violation true code message next = some (record { code = code; message = message })
violation false code message next = next

abbrev exceeded : Option ℤ → ℤ → Bool
exceeded none value = false
exceeded (some limit) value = ltb_ℤ limit value

unfoldable pub check_before_provider_turn : LimitsPolicy → Counters → Option LimitViolation
check_before_provider_turn limits s =
    violation (reached limits.max_turns s.turns) (text "turn_limit_exceeded")
      (text "maximum provider turns reached before final output") none

unfoldable pub check_after_response : LimitsPolicy → Counters → Option LimitViolation
check_after_response limits s =
    violation (exceeded limits.token_budget s.consumed_tokens) (text "token_limit_exceeded")
      (text "measured provider usage exceeded the run token budget") none

unfoldable pub check_before_tool_call : LimitsPolicy → Counters → Option LimitViolation
check_before_tool_call limits s =
    violation (reached limits.max_total_tool_output_bytes s.total_tool_output_bytes)
      (text "tool_output_limit_exceeded")
      (text "total tool-output limit reached before final output") none

unfoldable pub check_before_tool_batch : LimitsPolicy → Counters → ℤ → Option LimitViolation
check_before_tool_batch limits s requested =
    violation (reached limits.token_budget s.consumed_tokens) (text "token_limit_exceeded")
      (text "run token budget was exhausted before tool results could be returned")
      (violation (reached limits.max_turns s.turns) (text "turn_limit_exceeded")
        (text "maximum provider turns reached before tool results could be returned")
        (violation (batch_exceeds limits.max_tool_calls s.tool_calls requested)
          (text "tool_call_limit_exceeded") (text "maximum tool calls reached before final output")
          (check_before_tool_call limits s)))

abbrev at_least_one : ℤ → Option ℤ → Option ℤ
at_least_one consumed none = none
at_least_one consumed (some budget) =
    let remaining = sub64 budget consumed in
    some (if ltb_ℤ remaining (pos 1) then pos 1 else remaining)

unfoldable pub remaining_token_budget : LimitsPolicy → ℤ → Option ℤ
remaining_token_budget limits consumed = at_least_one consumed limits.token_budget

abbrev pub min_ℤ : ℤ → ℤ → ℤ
min_ℤ a b = if ltb_ℤ a b then a else b

abbrev pub at_most : Option ℤ → ℤ → ℤ
at_most none value = value
at_most (some limit) value = min_ℤ limit value

-- What is left of the limit on all outputs.
abbrev pub left_over : Option ℤ → ℤ → Option ℤ
left_over none total = none
left_over (some limit) total = some (sub64 limit total)

abbrev pub with_content : ToolResult → Bounded → ToolResult
with_content result b =
    if b.truncated then record result { content = b.content; truncated = true } else result

-- How many bytes a result may have; `pos_part` is 0 where the source's number is negative.
unfoldable pub allowed_bytes : LimitsPolicy → ToolResult → ℤ → ℕ
allowed_bytes limits result total = pos_part (
    at_most (left_over limits.max_total_tool_output_bytes total)
      (at_most limits.max_tool_result_bytes (pos (length result.content))))

-- applyToolOutput: the result, and the total.
unfoldable pub apply_tool_output : Encoding → LimitsPolicy → ToolResult → ℤ → ToolResult × ℤ
apply_tool_output enc limits result total =
    let applied =
      with_content result (bound enc result.content (allowed_bytes limits result total)) in
    (applied, add64 total (pos (length applied.content)))

unfoldable pub saturating_add : ℤ → ℤ → ℤ
saturating_add left right =
    if ltb_ℤ (pos 0) right && ltb_ℤ (sub64 (pos max_int64) right) left
    then pos max_int64
    else if ltb_ℤ right (pos 0) && ltb_ℤ left (sub64 min_int64 right)
    then min_int64
    else add64 left right

abbrev add_part : ℤ → Option ℤ → ℤ
add_part parts none = parts
add_part parts (some n) = saturating_add parts n

abbrev larger_total : Option ℤ → ℤ → ℤ
larger_total none parts = parts
larger_total (some total) parts = if ltb_ℤ parts total then total else parts

unfoldable pub measured_tokens : Usage → ℤ
measured_tokens usage =
    larger_total usage.total_tokens
      (add_part (add_part (pos 0) usage.input_tokens) usage.output_tokens)

unfoldable pub add_metric : Option ℤ → Option ℤ → Option ℤ
add_metric total none = total
add_metric none (some value) = some value
add_metric (some total) (some value) = some (saturating_add total value)

unfoldable pub add_usage : Usage → Usage → Usage
add_usage total current = record {
  input_tokens = add_metric total.input_tokens current.input_tokens;
  output_tokens = add_metric total.output_tokens current.output_tokens;
  total_tokens = add_metric total.total_tokens current.total_tokens;
  reasoning_tokens = add_metric total.reasoning_tokens current.reasoning_tokens;
}
