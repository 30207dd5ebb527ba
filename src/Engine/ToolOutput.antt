-- ===== src/Engine/ToolOutput.antt =====
-- internal/tooloutput/bound.go. utf8.ValidString and the encoding of the partial envelope by encoding/json are
-- parameters; a limit is not negative where it is above zero.
use kontext.Prelude.{
  ℕ, zero, suc, ◌+◌, ◌-◌, ◌/◌, Bool, true, false, ◌&&◌, [], Option, none, some, Text, text, leb,
  ltb, length, take, min, ◌==◌, nat_eq, if◌then◌else◌,
}

-- `{"partial": prefix}`; `none` is an error of encoding/json.
pub record Encoding : Type 0 where
  pub is_utf8 : Text → Bool
  pub encode_partial : Text → Option Text

pub record Bounded : Type 0 where
  pub content : Text
  pub truncated : Bool

abbrev pub empty_partial : Text
empty_partial = text "{\"partial\":\"\"}"

module _ (enc : Encoding) where
  -- The loop that shortens a prefix until it is valid.
  unfoldable pub shorten : Text → ℕ → Text
  shorten value zero = []
  shorten value (suc n) =
      let rest = shorten value n in
      let here = take (suc n) value in if enc.is_utf8 here then here else rest

  -- TruncateUTF8, for a limit that is not negative.
  unfoldable pub truncate_utf8 : Text → ℕ → Text
  truncate_utf8 value max_bytes =
      if max_bytes == 0
      then []
      else if leb (length value) max_bytes && enc.is_utf8 value
      then value
      else shorten value (min (length value) max_bytes)

  abbrev pub fits : ℕ → Option Text → Bool
  fits max_bytes none = false
  fits max_bytes (some e) = leb (length e) max_bytes

  abbrev pub or_best : Text → Option Text → Text
  or_best best none = best
  or_best best (some e) = e

  -- The search on low..high - 1; the source's high is one less. One unit of fuel for each round.
  unfoldable pub search_prefix : ℕ → Text → ℕ → ℕ → ℕ → Text → Text
  search_prefix zero value max_bytes low high best = best
  search_prefix (suc fuel) value max_bytes low high best =
      let middle = low + (high - 1 - low) / 2 in
      let encoded = enc.encode_partial (truncate_utf8 value middle) in
      let ok = fits max_bytes encoded in
      let low' = if ok then middle + 1 else low in
      let high' = if ok then high else middle in
      let best' = if ok then or_best best encoded else best in
      let rest = search_prefix fuel value max_bytes low' high' best' in
      if leb high low then best else rest

  -- Bound.
  unfoldable pub bound : Text → ℕ → Bounded
  bound value max_bytes =
      if enc.is_utf8 value && leb (length value) max_bytes
      then record { content = value; truncated = false }
      else if max_bytes == 0
      then record { content = []; truncated = true }
      else if max_bytes == 1
      then record { content = text "0"; truncated = true }
      else if ltb max_bytes (length empty_partial)
      then record { content = text "{}"; truncated = true }
      else record {
        content =
            search_prefix (length value + 1) value max_bytes 0 (length value + 1) empty_partial;
        truncated = true;
      }
