-- ===== src/Result/Compact/Loss.antt =====
-- What Compact (pkg/result/v1alpha1/compact.go) leaves out, and says that it left out.
use kontext.Prelude.{
  ℕ, ◌≤◌, ◌≡◌, refl, sym, ◌∙◌, ap, ◌<◌, inl, inr, ◌⊎◌, true, false, List, [], ◌∷◌, Option, none,
  some, Text, length, leb, leb→le, leb→lt, ◌==◌, nat_eq, pos, arith, Bool-cases,
}
use kontext.Api.{Message}
use kontext.Result.{Json, Envelope, Output, Truncation, Artifact, validate}
use kontext.Result.Compact.{
  Compacted, encoded, rejected, marked, brief, minimal, if_fits, or_next, last_attempts,
  without_output, without_artifacts, without_extensions, no_truncation, truncated_output, reduce,
  of_original, of_valid, compact_envelope,
}

-- The outcome is kept; output, artifacts and extensions are kept or marked as truncated.
pub record IsMarked (c : Envelope) (whole : Text) (e : Envelope) (t : Truncation) : Type 0 where
  pub original : t.original_bytes ≡ pos (length whole)
  pub outcome : e.outcome ≡ c.outcome
  pub output : t.output_truncated ≡ false → e.output ≡ c.output
  pub artifacts : t.artifacts_truncated ≡ false → e.artifacts ≡ c.artifacts
  pub extensions : t.extensions_truncated ≡ false → e.extensions ≡ c.extensions

module _ (json : Json) (marshal : Envelope → Option Text) where
  -- A text that encodes an envelope with its marker.
  pub record Loss (c : Envelope) (whole out : Text) : Type 0 where
    pub envelope : Envelope
    pub truncation : Truncation
    pub encodes : marshal envelope ≡ some out
    pub marker : envelope.truncation ≡ some truncation
    pub explicit : IsMarked c whole envelope truncation

  abbrev Allowed : Envelope → Text → ℕ → Compacted → Type 0
  Allowed c whole max_bytes (rejected m) = true ≡ true
  Allowed c whole max_bytes (encoded out) = (length out ≤ max_bytes) × Loss c whole out

  module _ (c : Envelope) (whole : Text) (max_bytes : ℕ) where
    if_fits-Allowed :
        (e : Envelope) (t : Truncation) (o : Option Text) (next : Compacted)
        → marshal e ≡ o
        → e.truncation ≡ some t
        → IsMarked c whole e t
        → Allowed c whole max_bytes next
        → Allowed c whole max_bytes (if_fits json marshal o max_bytes next)
    if_fits-Allowed e t none next m s h a = a
    if_fits-Allowed e t (some out) next m s h a = elim (Bool-cases (leb (length out) max_bytes)) [
      | inl b ↦ rw b (
        leb→le (length out) max_bytes b,
        record { envelope = e; truncation = t; encodes = m; marker = s; explicit = h },
      )
      | inr b ↦ rw b a
    ]

    or_next-Allowed :
        (e : Envelope) (t : Truncation) (next : Compacted)
        → IsMarked c whole e t
        → Allowed c whole max_bytes next
        → Allowed c whole max_bytes (or_next json marshal (marked e t) max_bytes next)
    or_next-Allowed e t next h a =
        if_fits-Allowed (marked e t) t (marshal (marked e t)) next refl refl
          (record {
            original = h.original;
            outcome = h.outcome;
            output = h.output;
            artifacts = h.artifacts;
            extensions = h.extensions;
          })
          a

    last_attempts-Allowed :
        (e : Envelope) (t : Truncation)
        → IsMarked c whole e t
        → (t.output_truncated ≡ false → e.output ≡ none)
        → e.artifacts ≡ []
        → e.extensions ≡ []
        → Allowed c whole max_bytes (last_attempts json marshal e t max_bytes)
    last_attempts-Allowed e t h no_output no_artifacts no_extensions =
        or_next-Allowed (brief e) t _
          (record {
            original = h.original;
            outcome = h.outcome;
            output = h.output;
            artifacts = h.artifacts;
            extensions = h.extensions;
          })
          (if_fits-Allowed (minimal e t) t (marshal (minimal e t)) _ refl refl
            (record {
              original = h.original;
              outcome = h.outcome;
              output = λ f. sym (no_output f) ∙ h.output f;
              artifacts = λ f. sym no_artifacts ∙ h.artifacts f;
              extensions = λ f. sym no_extensions ∙ h.extensions f;
            })
            refl)

    without_output-Allowed :
        (o : Option Output) (e : Envelope) (t : Truncation)
        → e.output ≡ o
        → IsMarked c whole e t
        → e.artifacts ≡ []
        → e.extensions ≡ []
        → Allowed c whole max_bytes (without_output json marshal o e t max_bytes)
    without_output-Allowed none e t s h na ne = last_attempts-Allowed e t h (λ f. s) na ne
    without_output-Allowed (some o) e t s h na ne =
        let marks : IsMarked c whole (record e { output = some truncated_output })
            (record t { output_truncated = true }) =
          record {
            original = h.original;
            outcome = h.outcome;
            output = λ f. absurd (cc f);
            artifacts = h.artifacts;
            extensions = h.extensions;
          } in
        or_next-Allowed (record e { output = some truncated_output })
          (record t { output_truncated = true }) _ marks
          (last_attempts-Allowed (record e { output = some truncated_output })
            (record t { output_truncated = true }) marks (λ f. absurd (cc f)) na ne)

    without_artifacts-Allowed :
        (l : List Artifact) (e : Envelope) (t : Truncation)
        → e.artifacts ≡ l
        → IsMarked c whole e t
        → e.extensions ≡ []
        → Allowed c whole max_bytes (without_artifacts json marshal l e t max_bytes)
    without_artifacts-Allowed [] e t s h ne = without_output-Allowed e.output e t refl h s ne
    without_artifacts-Allowed (a ∷ l) e t s h ne =
        let marks : IsMarked c whole (record e { artifacts = [] })
            (record t { artifacts_truncated = true }) =
          record {
            original = h.original;
            outcome = h.outcome;
            output = h.output;
            artifacts = λ f. absurd (cc f);
            extensions = h.extensions;
          } in
        or_next-Allowed (record e { artifacts = [] }) (record t { artifacts_truncated = true }) _
          marks
          (without_output-Allowed e.output (record e { artifacts = [] })
            (record t { artifacts_truncated = true }) refl marks refl ne)

    without_extensions-Allowed :
        (l : List (Text × Text)) (e : Envelope) (t : Truncation)
        → e.extensions ≡ l
        → IsMarked c whole e t
        → Allowed c whole max_bytes (without_extensions json marshal l e t max_bytes)
    without_extensions-Allowed [] e t s h = without_artifacts-Allowed e.artifacts e t refl h s
    without_extensions-Allowed (x ∷ l) e t s h =
        let marks : IsMarked c whole (record e { extensions = [] })
            (record t { extensions_truncated = true }) =
          record {
            original = h.original;
            outcome = h.outcome;
            output = h.output;
            artifacts = h.artifacts;
            extensions = λ f. absurd (cc f);
          } in
        or_next-Allowed (record e { extensions = [] }) (record t { extensions_truncated = true }) _
          marks
          (without_artifacts-Allowed e.artifacts (record e { extensions = [] })
            (record t { extensions_truncated = true }) refl marks refl)

    reduce-Allowed :
        (o : Option Envelope)
        → o ≡ some c
        → Allowed c whole max_bytes (reduce json marshal o (length whole) max_bytes)
    reduce-Allowed none h = absurd (cc h)
    reduce-Allowed (some c') h =
        let same : c' ≡ c = ground arith in
        without_extensions-Allowed c'.extensions c' (no_truncation (length whole)) refl (record {
          original = refl;
          outcome = ap (λ (x : Envelope). x.outcome) same;
          output = λ f. ap (λ (x : Envelope). x.output) same;
          artifacts = λ f. ap (λ (x : Envelope). x.artifacts) same;
          extensions = λ f. ap (λ (x : Envelope). x.extensions) same;
        })

  encoded-Allowed :
      (e : Envelope) (t : Text) (max_bytes : ℕ) (out : Text) (r : Compacted)
      → r ≡ encoded out
      → Allowed e t max_bytes r
      → (length out ≤ max_bytes) × Loss e t out
  encoded-Allowed e t max_bytes out (encoded out') h a =
      let same : out' ≡ out = ground arith in rw (← same) a
  encoded-Allowed e t max_bytes out (rejected m) h a = absurd (cc h)

  -- The whole text, within the limit, or a text with its losses marked.
  pub Fits : Envelope → ℕ → Text → Type 0
  Fits e max_bytes out =
      (length out ≤ max_bytes)
      × ((marshal e ≡ some out)
          ⊎ ((whole : Text) × ((marshal e ≡ some whole)
                × ((max_bytes < length whole) × Loss e whole out))))

  of_original-Fits :
      (e : Envelope) (max_bytes : ℕ) (o : Option Text) (out : Text)
      → marshal e ≡ o
      → ((t : Text) → marshal e ≡ some t → json.read_envelope t ≡ some e)
      → of_original json marshal o max_bytes ≡ encoded out
      → Fits e max_bytes out
  unfolding Fits
  of_original-Fits e max_bytes none out m reads h = absurd (cc h)
  of_original-Fits e max_bytes (some t) out m reads h =
      elim (Bool-cases (leb (length t) max_bytes)) [
        | inl b ↦
            let same : t ≡ out = ground arith in rw (← same) (leb→le (length t) max_bytes b, inl m)
        | inr b ↦
            let r : reduce json marshal (json.read_envelope t) (length t) max_bytes ≡ encoded out =
              rw b at h in
            let (short, loss) =
              encoded-Allowed e t max_bytes out _ r
                (reduce-Allowed e t max_bytes (json.read_envelope t) (reads t m)) in
            let exceeds : max_bytes < length t = leb→lt (length t) max_bytes b in
            (short, inr (t, (m, (exceeds, loss))))
      ]

  of_valid-Fits :
      (e : Envelope) (max_bytes : ℕ) (o : Option Message) (out : Text)
      → ((t : Text) → marshal e ≡ some t → json.read_envelope t ≡ some e)
      → of_valid json marshal o e max_bytes ≡ encoded out
      → Fits e max_bytes out
  of_valid-Fits e max_bytes none out reads h =
      of_original-Fits e max_bytes (marshal e) out refl reads h
  of_valid-Fits e max_bytes (some m) out reads h = absurd (cc h)

  -- Where the encoding of the envelope reads back as the envelope: what Compact returns is within the
  -- limit, and it is the encoding of the envelope, or that encoding exceeds the limit and what is
  -- returned encodes an envelope with the same outcome, with the length of the whole encoding, and with
  -- each of output, artifacts and extensions kept or marked as truncated.
  pub compact_envelope-Fits :
      (e : Envelope) (max_bytes : ℕ) (out : Text)
      → ((t : Text) → marshal e ≡ some t → json.read_envelope t ≡ some e)
      → compact_envelope json marshal e max_bytes ≡ encoded out
      → Fits e max_bytes out
  unfolding compact_envelope
  compact_envelope-Fits e max_bytes out reads h = elim (Bool-cases (max_bytes == 0)) [
    | inl b ↦ absurd (cc (rw b at h))
    | inr b ↦ of_valid-Fits e max_bytes (validate json e) out reads (rw b at h)
  ]
