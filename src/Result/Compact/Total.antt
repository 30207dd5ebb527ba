-- ===== src/Result/Compact/Total.antt =====
-- When Compact (pkg/result/v1alpha1/compact.go) returns a text.
use kontext.Prelude.{
  ℕ, ◌≤◌, ◌≡◌, refl, inl, inr, true, false, List, [], ◌∷◌, Option, none, some, Text, length, leb,
  le→leb, ◌==◌, nat_eq, Bool-cases, arith, pos,
}
use kontext.Result.{Json, Envelope, Output, Truncation, Artifact, validate}
use kontext.Result.Compact.{
  Compacted, encoded, marked, brief, minimal, if_fits, last_attempts, without_output,
  without_artifacts, without_extensions, no_truncation, truncated_output, of_original,
  compact_envelope,
}
use kontext.Result.Compact.Loss.{Fits, compact_envelope-Fits}

module _ (json : Json) (marshal : Envelope → Option Text) where
  -- Whatever is marked as left out, the envelope without all else has an encoding within the limit; the
  -- marker has the length of the whole encoding.
  abbrev pub HasRoom : Envelope → Text → ℕ → Type 0
  HasRoom e whole max_bytes =
      (t : Truncation)
      → t.original_bytes ≡ pos (length whole)
      → (m : Text) × ((marshal (minimal e t) ≡ some m) × (length m ≤ max_bytes))

  abbrev Encodes : Compacted → Type 0
  Encodes r = (out : Text) × (r ≡ encoded out)

  module _ (whole : Text) (max_bytes : ℕ) where
    if_fits-Encodes :
        (o : Option Text) (next : Compacted)
        → Encodes next
        → Encodes (if_fits json marshal o max_bytes next)
    if_fits-Encodes none next h = h
    if_fits-Encodes (some out) next h = elim (Bool-cases (leb (length out) max_bytes)) [
      | inl b ↦ rw b (out, refl)
      | inr b ↦ rw b h
    ]

    last_attempts-Encodes :
        (e : Envelope) (t : Truncation)
        → HasRoom e whole max_bytes
        → t.original_bytes ≡ pos (length whole)
        → Encodes (last_attempts json marshal e t max_bytes)
    last_attempts-Encodes e t room o' =
        let (m, (h, short)) = room t o' in
        if_fits-Encodes (marshal (marked (brief e) t)) _
          (rw (h, le→leb (length m) max_bytes short) (m, refl))

    without_output-Encodes :
        (o : Option Output) (e : Envelope) (t : Truncation)
        → HasRoom e whole max_bytes
        → t.original_bytes ≡ pos (length whole)
        → Encodes (without_output json marshal o e t max_bytes)
    without_output-Encodes none e t room o' = last_attempts-Encodes e t room o'
    without_output-Encodes (some o) e t room o' = if_fits-Encodes (marshal _) _ (
        last_attempts-Encodes (record e { output = some truncated_output })
          (record t { output_truncated = true }) room o')

    without_artifacts-Encodes :
        (l : List Artifact) (e : Envelope) (t : Truncation)
        → HasRoom e whole max_bytes
        → t.original_bytes ≡ pos (length whole)
        → Encodes (without_artifacts json marshal l e t max_bytes)
    without_artifacts-Encodes [] e t room o' = without_output-Encodes e.output e t room o'
    without_artifacts-Encodes (a ∷ l) e t room o' = if_fits-Encodes (marshal _) _ (
        without_output-Encodes e.output (record e { artifacts = [] })
          (record t { artifacts_truncated = true }) room o')

    without_extensions-Encodes :
        (l : List (Text × Text)) (e : Envelope) (t : Truncation)
        → HasRoom e whole max_bytes
        → t.original_bytes ≡ pos (length whole)
        → Encodes (without_extensions json marshal l e t max_bytes)
    without_extensions-Encodes [] e t room o' = without_artifacts-Encodes e.artifacts e t room o'
    without_extensions-Encodes (x ∷ l) e t room o' = if_fits-Encodes (marshal _) _ (
        without_artifacts-Encodes e.artifacts (record e { extensions = [] })
          (record t { extensions_truncated = true }) room o')

    of_original-Encodes :
        (e : Envelope)
        → json.read_envelope whole ≡ some e
        → HasRoom e whole max_bytes
        → Encodes (of_original json marshal (some whole) max_bytes)
    of_original-Encodes e reads room = elim (Bool-cases (leb (length whole) max_bytes)) [
      | inl b ↦ rw b (whole, refl)
      | inr b ↦
          rw (b, reads)
            (without_extensions-Encodes e.extensions e (no_truncation (length whole)) room refl)
    ]

  compact_envelope-Encodes :
      (e : Envelope) (max_bytes : ℕ) (whole : Text)
      → validate json e ≡ none
      → (max_bytes == 0) ≡ false
      → marshal e ≡ some whole
      → json.read_envelope whole ≡ some e
      → HasRoom e whole max_bytes
      → Encodes (compact_envelope json marshal e max_bytes)
  unfolding compact_envelope
  compact_envelope-Encodes e max_bytes whole valid positive m reads room =
      rw (positive, valid, m) (of_original-Encodes whole max_bytes e reads room)

  -- For a valid envelope whose encoding reads back as the envelope, and a positive limit within which the
  -- envelope of version, outcome, short error and truncation marker has an encoding, whichever losses the
  -- marker names, with the length of the whole encoding in it: Compact returns a text, within the limit; it
  -- is the encoding of the envelope, or that encoding exceeds the limit and the text encodes an
  -- envelope with the same outcome, with the length of the whole encoding, and with each of
  -- output, artifacts and extensions kept or marked as truncated.
  pub compact_envelope_total :
      (e : Envelope) (max_bytes : ℕ) (whole : Text)
      → validate json e ≡ none
      → (max_bytes == 0) ≡ false
      → marshal e ≡ some whole
      → json.read_envelope whole ≡ some e
      → HasRoom e whole max_bytes
      → (out : Text) × ((compact_envelope json marshal e max_bytes ≡ encoded out)
          × Fits json marshal e max_bytes out)
  compact_envelope_total e max_bytes whole valid positive m reads room =
      let (out, h) = compact_envelope-Encodes e max_bytes whole valid positive m reads room in
      (out, (h, compact_envelope-Fits json marshal e max_bytes out reads_any h))
    where
      reads_any : (t : Text) → marshal e ≡ some t → json.read_envelope t ≡ some e
      reads_any t h = let same : whole ≡ t = ground arith in rw (← same) reads
