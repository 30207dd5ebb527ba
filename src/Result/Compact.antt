-- ===== src/Result/Compact.antt =====
-- pkg/result/v1alpha1/compact.go. `marshal` is json.Marshal, which may fail; a limit below zero is read as zero,
-- which the source treats alike.
pub mod Loss
pub mod Total
pub mod Tests
use kontext.Prelude.{
  ℕ, ◌≤◌, ◌≡◌, refl, inl, inr, ◌⊎◌, Bool, true, false, ◌&&◌, ◌||◌, List, [], ◌∷◌, Option, none,
  some, Text, text, length, leb, leb→le, ◌==◌, nat_eq, pos, is_some, show_nat, if◌then◌else◌, arith,
  Bool-cases,
}
use kontext.Api.{Message, plain, sprintf}
use kontext.Result.{
  Json, Envelope, Output, ErrorInfo, Truncation, ResultOutcome, failed, Artifact, validate,
  result_api_version,
}

pub data Compacted : Type 0 where
  encoded : Text → Compacted
  rejected : Message → Compacted

abbrev pub truncated_output : Output
truncated_output = record {
  media_type = text "application/vnd.kontext.truncated+json";
  value = text "{\"truncated\":true}";
}

abbrev pub truncated_details : Text
truncated_details = text "result error details truncated"

abbrev is_failed : ResultOutcome → Bool
is_failed failed = true
is_failed _ = false

abbrev has_items : {A : Type 0} → List A → Bool
has_items [] = false
has_items (x ∷ xs) = true

abbrev pub no_truncation : ℕ → Truncation
no_truncation original = record {
  original_bytes = pos original;
  output_truncated = false;
  artifacts_truncated = false;
  extensions_truncated = false;
}

-- An envelope with its marker.
abbrev pub marked : Envelope → Truncation → Envelope
marked e t = record e { truncation = some t }

abbrev short_error : Option ErrorInfo → Option ErrorInfo
short_error none = none
short_error (some e) = some (record e { code = []; message = truncated_details })

-- Without details.
abbrev pub brief : Envelope → Envelope
brief e = record e { error = short_error e.error; execution = none; timing = none }

abbrev pub minimal : Envelope → Truncation → Envelope
minimal e t = record {
  api_version = result_api_version;
  outcome = e.outcome;
  output = none;
  usage = none;
  timing = none;
  execution = none;
  error =
      if is_failed e.outcome
      then some (record { code = []; message = truncated_details; retryable = none })
      else none;
  artifacts = [];
  extensions = [];
  truncation = some t;
}

module _ (json : Json) (marshal : Envelope → Option Text) where
  abbrev pub if_fits : Option Text → ℕ → Compacted → Compacted
  if_fits none max_bytes next = next
  if_fits (some t) max_bytes next = if leb (length t) max_bytes then encoded t else next

  -- marshalWithin, or what comes next.
  abbrev pub or_next : Envelope → ℕ → Compacted → Compacted
  or_next e max_bytes next = if_fits (marshal e) max_bytes next

  -- The last two attempts.
  abbrev pub last_attempts : Envelope → Truncation → ℕ → Compacted
  last_attempts e t max_bytes = or_next (marked (brief e) t) max_bytes (
      or_next (minimal e t) max_bytes (
        rejected
          (sprintf (text "result envelope cannot fit within %d bytes") (show_nat max_bytes ∷ []))))

  abbrev pub without_output : Option Output → Envelope → Truncation → ℕ → Compacted
  without_output none e t max_bytes = last_attempts e t max_bytes
  without_output (some o) e t max_bytes =
      let e' = record e { output = some truncated_output } in
      let t' = record t { output_truncated = true } in
      or_next (marked e' t') max_bytes (last_attempts e' t' max_bytes)

  abbrev pub without_artifacts : List Artifact → Envelope → Truncation → ℕ → Compacted
  without_artifacts [] e t max_bytes = without_output e.output e t max_bytes
  without_artifacts (a ∷ rest) e t max_bytes =
      let e' = record e { artifacts = [] } in
      let t' = record t { artifacts_truncated = true } in
      or_next (marked e' t') max_bytes (without_output e'.output e' t' max_bytes)

  abbrev pub without_extensions : List (Text × Text) → Envelope → Truncation → ℕ → Compacted
  without_extensions [] e t max_bytes = without_artifacts e.artifacts e t max_bytes
  without_extensions (x ∷ xs) e t max_bytes =
      let e' = record e { extensions = [] } in
      let t' = record t { extensions_truncated = true } in
      or_next (marked e' t') max_bytes (without_artifacts e'.artifacts e' t' max_bytes)

  -- cloneEnvelope, and the attempts on the clone.
  abbrev pub reduce : Option Envelope → ℕ → ℕ → Compacted
  reduce none original max_bytes =
      rejected (plain (text "clone result envelope for compaction: %w"))
  reduce (some c) original max_bytes =
      without_extensions c.extensions c (no_truncation original) max_bytes

  abbrev pub of_original : Option Text → ℕ → Compacted
  of_original none max_bytes = rejected (plain (text "marshal result envelope: %w"))
  of_original (some t) max_bytes =
      if leb (length t) max_bytes
      then encoded t
      else reduce (json.read_envelope t) (length t) max_bytes

  abbrev pub of_valid : Option Message → Envelope → ℕ → Compacted
  of_valid (some m) e max_bytes = rejected m
  of_valid none e max_bytes = of_original (marshal e) max_bytes

  -- Compact.
  unfoldable pub compact_envelope : Envelope → ℕ → Compacted
  compact_envelope e max_bytes =
      if max_bytes == 0
      then rejected (plain (text "result envelope byte limit must be positive"))
      else of_valid (validate json e) e max_bytes
