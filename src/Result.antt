-- ===== src/Result.antt =====
-- pkg/result/v1alpha1: the result envelope, its validation and its parsing. encoding/json is a
-- parameter; a map is an association list, its entries in the order of the list, and case folding
-- is read on ASCII text.
pub mod Valid
pub mod Compact
pub mod Stream
pub mod Tests
use kontext.Prelude.{
  ℕ, ◌+◌, show_nat, show_int, Bool, true, false, ◌&&◌, ◌||◌, not, List, [], ◌∷◌, Option, none, some,
  Text, text, ltb, leb, ◌==◌, nat_eq, list_eq, is_some, trim_space, to_lower, strip_prefix, ℤ, pos,
  ltb_ℤ, if◌then◌else◌,
}
use kontext.Api.{Time, before, Message, plain, sprintf}

-- A string type; `other` is any string without a constant.
pub data ResultOutcome : Type 0 where
  succeeded failed : ResultOutcome
  other : Text → ResultOutcome

-- `value` is raw JSON.
pub record Output : Type 0 where
  pub media_type : Text
  pub value : Text

-- `dollars` is the 64 bits of a float64.
pub record Usage : Type 0 where
  pub input_tokens : Option ℤ
  pub output_tokens : Option ℤ
  pub total_tokens : Option ℤ
  pub reasoning_tokens : Option ℤ
  pub dollars : Option ℕ

pub record Timing : Type 0 where
  pub started_at : Option Time
  pub completed_at : Option Time
  pub duration_millis : Option ℤ
  pub provider_latency_ms : Option ℤ

pub record Execution : Type 0 where
  pub provider : Text
  pub model : Text
  pub request_id : Text
  pub turns : Option ℤ
  pub tool_calls : Option ℤ

pub record ErrorInfo : Type 0 where
  pub code : Text
  pub message : Text
  pub retryable : Option Bool

pub record Artifact : Type 0 where
  pub name : Text
  pub uri : Text
  pub media_type : Text
  pub digest : Text

pub record Truncation : Type 0 where
  pub original_bytes : ℤ
  pub output_truncated : Bool
  pub artifacts_truncated : Bool
  pub extensions_truncated : Bool

pub record Envelope : Type 0 where
  pub api_version : Text
  pub outcome : ResultOutcome
  pub output : Option Output
  pub usage : Option Usage
  pub timing : Option Timing
  pub execution : Option Execution
  pub error : Option ErrorInfo
  pub artifacts : List Artifact
  pub extensions : List (Text × Text)
  pub truncation : Option Truncation

pub record LegacyPayload : Type 0 where
  pub result : Text
  pub tokens_used : Option ℤ
  pub dollars_used : Option ℕ
  pub error : Text

-- encoding/json. `none` is an error of Unmarshal or Compact.
pub record Json : Type 0 where
  pub object_keys : Text → Option (List Text)
  pub read_envelope : Text → Option Envelope
  pub read_legacy : Text → Option LegacyPayload
  pub read_text : Text → Option Text
  pub write_text : Text → Text
  pub compact : Text → Option Text
  pub is_valid : Text → Bool

abbrev pub result_api_version : Text
result_api_version = text "kontext.dev/result/v1alpha1"

abbrev pub default_media_type : Text
default_media_type = text "text/plain"

abbrev pub is_blank : Text → Bool
is_blank t = trim_space t == []

-- Checks in the order of the source; `none` is nil.
abbrev pub first_error : Option Message → Option Message → Option Message
first_error none rest = rest
first_error (some e) rest = some e

abbrev unless : Bool → Message → Option Message
unless true e = none
unless false e = some e

abbrev negative : Option ℤ → Bool
negative none = false
negative (some v) = ltb_ℤ v (pos 0)

-- Below zero: the sign bit with a magnitude, not a NaN.
abbrev negative_float : Option ℕ → Bool
negative_float none = false
negative_float (some bits) = ltb 9223372036854775808 bits && leb bits 18442240474082181120

abbrev reasoning_error : Option ℤ → Option ℤ → Option Message
reasoning_error (some reasoning) (some output) = unless (not (ltb_ℤ output reasoning)) (
    sprintf (text "result usage reasoningTokens %d exceeds outputTokens %d")
      (show_int reasoning ∷ show_int output ∷ []))
reasoning_error _ _ = none

abbrev metric_error : Text → Option ℤ → Option Message
metric_error name value =
    unless (not (negative value)) (sprintf (text "result usage %s cannot be negative") (name ∷ []))

pub validate_usage : Usage → Option Message
validate_usage u = first_error (metric_error (text "inputTokens") u.input_tokens) (
    first_error (metric_error (text "outputTokens") u.output_tokens) (
      first_error (metric_error (text "totalTokens") u.total_tokens) (
        first_error (metric_error (text "reasoningTokens") u.reasoning_tokens) (
          first_error (reasoning_error u.reasoning_tokens u.output_tokens) (
            unless (not (negative_float u.dollars))
              (plain (text "result usage dollars cannot be negative")))))))

abbrev earlier : Option Time → Option Time → Bool
earlier (some t) (some u) = before t u
earlier _ _ = false

abbrev validate_timing : Option Timing → Option Message
validate_timing none = none
validate_timing (some t) =
    first_error
      (unless (not (negative t.duration_millis))
        (plain (text "result timing durationMillis cannot be negative")))
      (first_error
        (unless (not (negative t.provider_latency_ms))
          (plain (text "result timing providerLatencyMillis cannot be negative")))
        (unless (not (earlier t.completed_at t.started_at))
          (plain (text "result timing completedAt cannot precede startedAt"))))

abbrev validate_execution : Option Execution → Option Message
validate_execution none = none
validate_execution (some x) =
    first_error
      (unless (not (negative x.turns)) (plain (text "result execution turns cannot be negative")))
      (unless (not (negative x.tool_calls))
        (plain (text "result execution toolCalls cannot be negative")))

-- From an index on.
pub validate_artifacts : ℕ → List Artifact → Option Message
validate_artifacts index [] = none
validate_artifacts index (a ∷ artifacts) =
    first_error
      (unless (not (is_blank a.name || is_blank a.uri))
        (sprintf (text "result artifact %d requires name and uri") (show_nat index ∷ [])))
      (validate_artifacts (index + 1) artifacts)

abbrev some_byte : ℕ → Text → Bool
some_byte c [] = false
some_byte c (d ∷ t) = c == d || some_byte c t

abbrev is_supported : ResultOutcome → Bool
is_supported (ResultOutcome.other t) = false
is_supported _ = true

abbrev outcome_text : ResultOutcome → Text
outcome_text succeeded = text "Succeeded"
outcome_text failed = text "Failed"
outcome_text (ResultOutcome.other t) = t

abbrev outcome_error : ResultOutcome → Option ErrorInfo → Option Message
outcome_error failed none = some (plain (text "failed result requires error details"))
outcome_error succeeded (some e) =
    some (plain (text "succeeded result cannot contain terminal error details"))
outcome_error _ _ = none

abbrev error_message_error : Option ErrorInfo → Option Message
error_message_error none = none
error_message_error (some e) =
    unless (not (is_blank e.message)) (plain (text "result error message is required"))

abbrev usage_error : Option Usage → Option Message
usage_error none = none
usage_error (some u) = validate_usage u

-- What Parse returns: the envelope with the flag of a legacy format, or an error, without the
-- wrapped error of a library.
pub data Parsed : Type 0 where
  parsed : Envelope → Bool → Parsed
  malformed : Message → Parsed

module _ (json : Json) where
  pub validate_extensions : List (Text × Text) → Option Message
  validate_extensions [] = none
  validate_extensions ((name, value) ∷ more) =
      first_error
        (unless (some_byte b'/' name)
          (sprintf (text "result extension %q must use a namespaced key") (name ∷ [])))
        (first_error
          (unless (json.is_valid value)
            (sprintf (text "result extension %q must contain valid JSON") (name ∷ [])))
          (validate_extensions more))

  abbrev validate_output : Option Output → Option Message
  validate_output none = none
  validate_output (some o) =
      first_error
        (unless (not (is_blank o.media_type)) (plain (text "result output mediaType is required")))
        (unless (not (is_blank o.value || not (json.is_valid o.value)))
          (plain (text "result output value must be valid JSON")))

  pub validate : Envelope → Option Message
  validate e =
      first_error
        (unless (e.api_version == result_api_version)
          (sprintf (text "unsupported result apiVersion %q") (e.api_version ∷ [])))
        (first_error
          (unless (is_supported e.outcome)
            (sprintf (text "unsupported result outcome %q") (outcome_text e.outcome ∷ [])))
          (first_error (validate_output e.output) (
            first_error (error_message_error e.error) (
              first_error (outcome_error e.outcome e.error) (
                first_error (usage_error e.usage) (
                  first_error (validate_timing e.timing) (
                    first_error (validate_execution e.execution) (
                      first_error (validate_artifacts 0 e.artifacts)
                        (validate_extensions e.extensions)))))))))

  abbrev pub successful_envelope : Envelope
  successful_envelope = record {
    api_version = result_api_version;
    outcome = succeeded;
    output = none;
    usage = none;
    timing = none;
    execution = none;
    error = none;
    artifacts = [];
    extensions = [];
    truncation = none;
  }

  abbrev pub output_from_text : Text → Option Output
  output_from_text value =
      if value == []
      then none
      else some (record { media_type = default_media_type; value = json.write_text value })

  abbrev usage_from_legacy : LegacyPayload → Option Usage
  usage_from_legacy payload =
      if not (is_some payload.tokens_used) && not (is_some payload.dollars_used)
      then none
      else some (record {
        input_tokens = none;
        output_tokens = none;
        total_tokens = payload.tokens_used;
        reasoning_tokens = none;
        dollars = payload.dollars_used;
      })

  abbrev legacy_error : Text → Option ErrorInfo
  legacy_error t =
      if t == [] then none else some (record { code = []; message = t; retryable = none })

  abbrev is_legacy_key : Text → Bool
  is_legacy_key key =
      let k = to_lower key in
      k == text "result" || k == text "tokensused" || k == text "dollarsused" || k == text "error"

  pub has_legacy_field : List Text → Bool
  has_legacy_field [] = false
  has_legacy_field (k ∷ ks) = is_legacy_key k || has_legacy_field ks

  abbrev has_key : Text → List Text → Bool
  has_key k [] = false
  has_key k (j ∷ ks) = k == j || has_key k ks

  abbrev validated : Envelope → Option Message → Parsed
  validated e none = parsed e false
  validated e (some m) = malformed m

  abbrev versioned : Option Envelope → Parsed
  versioned none = malformed (plain (text "decode result envelope: %w"))
  versioned (some e) = validated e (validate e)

  abbrev from_legacy : Option LegacyPayload → Parsed
  from_legacy none = malformed (plain (text "decode legacy termination payload: %w"))
  from_legacy (some payload) =
      parsed
        (record successful_envelope {
          output = output_from_text payload.result;
          usage = usage_from_legacy payload;
          error = legacy_error payload.error;
        })
        true

  abbrev from_object : Text → Option (List Text) → Parsed
  from_object message none = malformed (plain (text "decode termination payload: %w"))
  from_object message (some keys) =
      if has_key (text "apiVersion") keys
      then versioned (json.read_envelope message)
      else if not (has_legacy_field keys)
      then malformed (plain (text "decode termination payload: unrecognized JSON object"))
      else from_legacy (json.read_legacy message)

  abbrev from_trimmed : Text → Parsed
  from_trimmed message =
      if message == []
      then parsed successful_envelope false
      else if not (is_some (strip_prefix (text "{") message))
      then parsed (record successful_envelope { output = output_from_text message }) true
      else from_object message (json.object_keys message)

  unfoldable pub parse : Text → Parsed
  parse message = from_trimmed (trim_space message)

  abbrev only_versioned : Text → Parsed → Option Envelope
  only_versioned message (malformed m) = none
  only_versioned message (parsed e legacy) =
      if legacy || trim_space message == [] then none else some e

  -- `none` is any error.
  pub parse_versioned : Text → Option Envelope
  parse_versioned message = only_versioned message (parse message)

  abbrev compacted : Option Text → Text
  compacted none = []
  compacted (some t) = t

  abbrev text_or_compact : Text → Option Text → Text
  text_or_compact value (some t) = t
  text_or_compact value none = compacted (json.compact value)

  pub plain_text : Option Output → Text
  plain_text none = []
  plain_text (some o) =
      if is_blank o.value
      then []
      else if is_some (strip_prefix (text "text/") (to_lower o.media_type))
      then text_or_compact o.value (json.read_text o.value)
      else compacted (json.compact o.value)
