-- ===== src/Result/Valid.antt =====
-- What Parse and ParseVersioned (pkg/result/v1alpha1/parse.go) return.
use kontext.Prelude.{
  ◌≡◌, ◌≢◌, refl, ap, inl, inr, ◌⊎◌, Bool, true, false, List, [], Option, none, some, Text, text,
  arith, ◌==◌, nat_eq, list_eq, eq_of_beq, beq_refl, is_some, Bool-cases, trim_space, strip_prefix,
  to_lower, lower,
}
use kontext.Api.{Message}
use kontext.Result.{
  Json, LegacyPayload, Envelope, Parsed, parsed, malformed, validate, validated, versioned,
  from_legacy, from_object, from_trimmed, parse, only_versioned, parse_versioned, has_key,
  has_legacy_field, successful_envelope, plain_text, output_from_text, default_media_type, is_blank,
}

text_type : is_some (strip_prefix (text "text/") (to_lower default_media_type)) ≡ true
unfolding strip_prefix to_lower lower
text_type = refl

module _ (json : Json) where
  validated-valid :
      (e e' : Envelope) (legacy : Bool) (o : Option Message)
      → validate json e ≡ o
      → validated json e o ≡ parsed e' legacy
      → (legacy ≡ false) × (validate json e' ≡ none)
  validated-valid e e' legacy none v h =
      let same : e ≡ e' = ground arith in (ground arith, rw (← same) v)
  validated-valid e e' legacy (some m) v h = absurd (cc h)

  versioned-valid :
      (o : Option Envelope) (e : Envelope) (legacy : Bool)
      → versioned json o ≡ parsed e legacy
      → validate json e ≡ none
  versioned-valid none e legacy h = absurd (cc h)
  versioned-valid (some e') e legacy h = (validated-valid e' e legacy (validate json e') refl h).1

  from_legacy-flag :
      (o : Option LegacyPayload) (e : Envelope) (legacy : Bool)
      → from_legacy json o ≡ parsed e legacy
      → legacy ≡ true
  from_legacy-flag none e legacy h = absurd (cc h)
  from_legacy-flag (some payload) e legacy h = ground arith

  -- A JSON object is in a legacy format, or its envelope is valid.
  from_object-valid :
      (message : Text) (keys : Option (List Text)) (e : Envelope) (legacy : Bool)
      → from_object json message keys ≡ parsed e legacy
      → (legacy ≡ true) ⊎ (validate json e ≡ none)
  from_object-valid message none e legacy h = absurd (cc h)
  from_object-valid message (some keys) e legacy h =
      elim (Bool-cases (has_key json (text "apiVersion") keys)) [
        | inl k ↦ inr (versioned-valid (json.read_envelope message) e legacy (rw k at h))
        | inr k ↦ elim (Bool-cases (has_legacy_field json keys)) [
          | inl l ↦ inl (from_legacy-flag (json.read_legacy message) e legacy (rw (k, l) at h))
          | inr l ↦ absurd (cc (rw (k, l) at h))
        ]
      ]

  from_trimmed-valid :
      (message : Text) (e : Envelope) (legacy : Bool)
      → from_trimmed json message ≡ parsed e legacy
      → (message ≡ []) ⊎ ((legacy ≡ true) ⊎ (validate json e ≡ none))
  from_trimmed-valid message e legacy h = elim (Bool-cases (message == [])) [
    | inl b ↦ inl (eq_of_beq message [] b)
    | inr b ↦ inr (elim (Bool-cases (is_some (strip_prefix (text "{") message))) [
      | inl o ↦ from_object-valid message (json.object_keys message) e legacy (rw (b, o) at h)
      | inr o ↦ inl (plain-flag _ _ (rw (b, o) at h))
    ])
  ]
    where
      plain-flag : (x y : Envelope) → parsed x true ≡ parsed y legacy → legacy ≡ true
      plain-flag x y p = ground arith

  versioned_only :
      (message : Text) (p : Parsed) (e : Envelope)
      → only_versioned json message p ≡ some e
      → (p ≡ parsed e false) × ((trim_space message == []) ≡ false)
  versioned_only message (malformed m) e h = absurd (cc h)
  versioned_only message (parsed x true) e h = absurd (cc h)
  versioned_only message (parsed x false) e h = elim (Bool-cases (trim_space message == [])) [
    | inl b ↦ absurd (cc (rw b at h))
    | inr b ↦ let h' : some x ≡ some e = rw b at h in (ground arith, b)
  ]

  -- Every envelope that ParseVersioned returns passes Validate.
  pub parse_versioned-valid :
      (message : Text) (e : Envelope)
      → parse_versioned json message ≡ some e
      → validate json e ≡ none
  unfolding parse_versioned parse
  parse_versioned-valid message e h =
      let (p, b) = versioned_only message (from_trimmed json (trim_space message)) e h in
      elim (from_trimmed-valid (trim_space message) e false p) [
        | inl q ↦ absurd (cc (b, ap (λ t. t == []) q, beq_refl {A = Text} []))
        | inr q ↦ elim q [ inl f ↦ absurd (cc f) | inr v ↦ v ]
      ]

  -- A message that is not blank and does not open a JSON object is read as a legacy success, and its
  -- plain text is the message without the space around it, where encoding/json reads that text back from
  -- the string that it writes for it, as it does for valid UTF-8, and that string is not blank.
  pub plain_text-parse :
      (message : Text)
      → json.read_text (json.write_text (trim_space message)) ≡ some (trim_space message)
      → is_blank (json.write_text (trim_space message)) ≡ false
      → trim_space message ≢ []
      → strip_prefix (text "{") (trim_space message) ≡ none
      → (e : Envelope) × (parse json message ≡ parsed e true)
        × (plain_text json e.output ≡ trim_space message)
  unfolding parse plain_text
  plain_text-parse message back shown filled plain =
      let t = trim_space message in
      let there : (t == []) ≡ false = not_nil t filled in
      (
        record (successful_envelope json) { output = output_from_text json t },
        rw (there, plain) refl,
        rw there (rw (shown, back, text_type) refl),
      )
    where
      not_nil : (t : Text) → t ≢ [] → (t == []) ≡ false
      not_nil t n = elim (Bool-cases (t == [])) [
        | inl b ↦ absurd (n (eq_of_beq t [] b))
        | inr b ↦ b
      ]
