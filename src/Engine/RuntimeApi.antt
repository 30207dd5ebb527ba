-- ===== src/Engine/RuntimeApi.antt =====
-- runtimes/reference/internal/runtimeapi/types.go and conversation/state.go. Values are not shared, so
-- clones are the values themselves; json.Valid is a parameter.
use kontext.Prelude.{
  ℕ, ◌+◌, Bool, true, false, ◌&&◌, ◌||◌, not, List, [], ◌∷◌, ◌++◌, Option, none, some, Text, text,
  ◌==◌, nat_eq, list_eq, is_some, ℤ, pos, ltb_ℤ, ◌-ℤ◌, show_nat, show_int, trim_space, join,
  if◌then◌else◌,
}
use kontext.Api.{max_int64, Message as Report, plain, sprintf}
use kontext.Result.{first_error}

pub data Role : Type 0 where
  user assistant tool : Role
  other : Text → Role

pub data ContentType : Type 0 where
  text_block tool_call tool_result : ContentType
  other : Text → ContentType

pub record ToolCall : Type 0 where
  pub id : Text
  pub name : Text
  pub arguments : Text

pub record ToolResult : Type 0 where
  pub call_id : Text
  pub name : Text
  pub content : Text
  pub is_error : Bool
  pub error_code : Text
  pub truncated : Bool

pub record ContentBlock : Type 0 where
  pub type : ContentType
  pub text : Text
  pub tool_call : Option ToolCall
  pub tool_result : Option ToolResult

pub record ToolDefinition : Type 0 where
  pub name : Text
  pub description : Text
  pub input_schema : Text

pub record ChatMessage : Type 0 where
  pub role : Role
  pub content : List ContentBlock

pub record Usage : Type 0 where
  pub input_tokens : Option ℤ
  pub output_tokens : Option ℤ
  pub total_tokens : Option ℤ
  pub reasoning_tokens : Option ℤ

pub data StopReason : Type 0 where
  end_turn max_tokens stop_sequence tool_use content_filter pause_turn refusal
        model_context_window_exceeded :
      StopReason
  other : Text → StopReason

pub record CompletionRequest : Type 0 where
  pub model : Text
  pub messages : List ChatMessage
  pub max_tokens : Option ℤ
  pub tools : List ToolDefinition

pub record CompletionResponse : Type 0 where
  pub message : ChatMessage
  pub usage : Usage
  pub stop_reason : StopReason
  pub request_id : Text

-- conversation.New and Append.
abbrev pub new_conversation : Text → List ChatMessage
new_conversation goal =
    record {
      role = user;
      content =
          record { type = text_block; text = goal; tool_call = none; tool_result = none } ∷ [];
    }
    ∷ []

abbrev pub append : List ChatMessage → ChatMessage → List ChatMessage
append messages message = messages ++ message ∷ []

abbrev is_blank : Text → Bool
is_blank t = trim_space t == []

abbrev pub check : Bool → Text → List Text → Option Report
check true t xs = none
check false t xs = some (sprintf t xs)

abbrev negative : Option ℤ → Bool
negative none = false
negative (some v) = ltb_ℤ v (pos 0)

abbrev check_metric : Text → Option ℤ → Option Report
check_metric name v =
    check (not (negative v)) (text "%s token usage cannot be negative") (name ∷ [])

abbrev or_zero : Option ℤ → ℤ
or_zero none = pos 0
or_zero (some v) = v

-- The sum of two numbers that are not negative, or an error where it exceeds int64.
abbrev checked_sum : ℤ → ℤ → Option ℤ
checked_sum a b = if ltb_ℤ (pos max_int64 -ℤ b) a then none else some (a -ℤ (pos 0 -ℤ b))

abbrev check_total : Option ℤ → Option ℤ → Option Report
check_total total none = some (plain (text "input and output token usage overflow int64"))
check_total none (some measured) = none
check_total (some total) (some measured) =
    check (not (ltb_ℤ total measured))
      (text "total token usage %d is lower than measured input and output usage %d")
      (show_int total ∷ show_int measured ∷ [])

abbrev check_reasoning : Option ℤ → Option ℤ → Option Report
check_reasoning (some output) (some reasoning) =
    check (not (ltb_ℤ output reasoning))
      (text "reasoning token usage %d exceeds output token usage %d")
      (show_int reasoning ∷ show_int output ∷ [])
check_reasoning _ _ = none

-- validateUsage; `none` is nil.
unfoldable pub validate_usage : Usage → Option Report
validate_usage u = first_error (check_metric (text "input") u.input_tokens) (
    first_error (check_metric (text "output") u.output_tokens) (
      first_error (check_metric (text "total") u.total_tokens) (
        first_error (check_metric (text "reasoning") u.reasoning_tokens) (
          first_error
            (check_total u.total_tokens
              (checked_sum (or_zero u.input_tokens) (or_zero u.output_tokens)))
            (check_reasoning u.output_tokens u.reasoning_tokens)))))

abbrev is_assistant : Role → Bool
is_assistant assistant = true
is_assistant _ = false

abbrev may_be_empty : StopReason → Bool
may_be_empty content_filter = true
may_be_empty refusal = true
may_be_empty _ = false

abbrev is_supported : StopReason → Bool
is_supported (StopReason.other t) = false
is_supported _ = true

abbrev is_empty : {A : Type 0} → List A → Bool
is_empty [] = true
is_empty (x ∷ xs) = false

abbrev pub reason_text : StopReason → Text
reason_text end_turn = text "end_turn"
reason_text max_tokens = text "max_tokens"
reason_text stop_sequence = text "stop_sequence"
reason_text tool_use = text "tool_use"
reason_text content_filter = text "content_filter"
reason_text pause_turn = text "pause_turn"
reason_text refusal = text "refusal"
reason_text model_context_window_exceeded = text "model_context_window_exceeded"
reason_text (StopReason.other t) = t

module _ (is_json : Text → Bool) where
  abbrev validate_call : Text → ContentBlock → Option ToolCall → Option Report
  validate_call i b none =
      some (sprintf (text "assistant tool-call block %d has no tool call") (i ∷ []))
  validate_call i b (some c) =
      first_error
        (check (not (is_blank c.id)) (text "assistant tool-call block %d has no id") (i ∷ []))
        (first_error
          (check (not (is_blank c.name)) (text "assistant tool-call block %d has no name") (i ∷ []))
          (first_error
            (check (not (c.arguments == []) && is_json c.arguments)
              (text "assistant tool-call block %d has invalid arguments") (i ∷ []))
            (first_error
              (check (b.text == []) (text "assistant tool-call block %d unexpectedly contains text")
                (i ∷ []))
              (check (not (is_some b.tool_result))
                (text "assistant tool-call block %d contains a tool result") (i ∷ [])))))

  abbrev validate_block : Text → ContentBlock → ContentType → Option Report
  validate_block i b text_block =
      first_error
        (check (not (is_blank b.text)) (text "assistant content block %d has empty text") (i ∷ []))
        (check (not (is_some b.tool_call || is_some b.tool_result))
          (text "assistant text block %d contains non-text data") (i ∷ []))
  validate_block i b tool_call = validate_call i b b.tool_call
  validate_block i b tool_result =
      some
        (sprintf (text "assistant content block %d unexpectedly contains a tool result") (i ∷ []))
  validate_block i b (ContentType.other t) =
      some (sprintf (text "assistant content block %d has unsupported type %q") (i ∷ t ∷ []))

  -- From an index on.
  unfoldable pub validate_blocks : ℕ → List ContentBlock → Option Report
  validate_blocks index [] = none
  validate_blocks index (b ∷ bs) =
      first_error (validate_block (show_nat index) b b.type) (validate_blocks (index + 1) bs)

  abbrev role_text : Role → Text
  role_text user = text "user"
  role_text assistant = text "assistant"
  role_text tool = text "tool"
  role_text (Role.other t) = t

  -- ValidateResponse; `none` is nil.
  unfoldable pub validate_response : CompletionResponse → Option Report
  validate_response r =
      first_error
        (check (is_assistant r.message.role) (text "assistant response has invalid role %q")
          (role_text r.message.role ∷ []))
        (first_error
          (check (not (is_empty r.message.content) || may_be_empty r.stop_reason)
            (text "assistant response has no content") [])
          (first_error (validate_blocks 0 r.message.content) (
            first_error
              (check (is_supported r.stop_reason)
                (text "assistant response has unsupported stop reason %q")
                (reason_text r.stop_reason ∷ []))
              (validate_usage r.usage))))

abbrev text_part : ContentType → Text → List Text → List Text
text_part text_block t parts = if is_blank t then parts else t ∷ parts
text_part _ t parts = parts

unfoldable pub text_parts : List ContentBlock → List Text
text_parts [] = []
text_parts (b ∷ bs) = text_part b.type b.text (text_parts bs)

-- MessageText and MessageToolCalls.
unfoldable pub message_text : ChatMessage → Text
message_text m = join (b'\n' ∷ []) (text_parts m.content)

abbrev call_part : ContentType → Option ToolCall → List ToolCall → List ToolCall
call_part tool_call (some c) calls = c ∷ calls
call_part _ _ calls = calls

unfoldable pub tool_calls : List ContentBlock → List ToolCall
tool_calls [] = []
tool_calls (b ∷ bs) = call_part b.type b.tool_call (tool_calls bs)
