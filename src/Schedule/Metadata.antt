-- ===== src/Schedule/Metadata.antt =====
-- internal/scheduledrun/metadata.go. RFC 3339 printing (in UTC, to the second) and parsing are
-- parameters.
use kontext.Prelude.{
  ℕ, ◌-◌, ◌%◌, ◌≤◌, ◌≡◌, refl, ap, ◌∙◌, inl, inr, Bool, false, List, [], ◌∷◌, Option, none, some,
  Text, text, arith, leb, ◌==◌, nat_eq, list_eq, eq_of_beq, list_beq, map_get, map_set, Bool-cases,
  ℤ, pos, negsuc, parse_int32, show_nat, parse-show_nat, max_int32, if◌then◌else◌,
}
use kontext.Api.{Time, nanos_per_second, AgentRun}

pub record TimeCodec : Type 0 where
  pub format : Time → Text
  pub parse : Text → Option Time

-- Parsing what was printed of a time gives it without the fraction of a second.
abbrev pub ReadsBack : TimeCodec → Time → Type 0
ReadsBack c t = c.parse (c.format t) ≡ some (t - t % nanos_per_second)

abbrev pub slot_annotation_key : Text
slot_annotation_key = text "kontext.dev/scheduled-slot"

abbrev pub sequence_annotation_key : Text
sequence_annotation_key = text "kontext.dev/scheduled-sequence"

pub set_metadata : TimeCodec → AgentRun → Time → ℕ → AgentRun
set_metadata c run slot sequence = record run {
  meta = record run.meta {
    annotations =
        map_set sequence_annotation_key (show_nat sequence)
          (map_set slot_annotation_key (c.format slot) run.annotations);
  };
}

abbrev or_empty : Option Text → Text
or_empty none = []
or_empty (some v) = v

abbrev annotation : Text → AgentRun → Text
annotation key run = or_empty (map_get key run.annotations)

-- A missing annotation is the empty string.
unfoldable pub slot : TimeCodec → AgentRun → Option Time
slot c run = c.parse (annotation slot_annotation_key run)

abbrev at_least_one : Option ℤ → Option ℕ
at_least_one none = none
at_least_one (some (negsuc n)) = none
at_least_one (some (pos n)) = if leb 1 n then some n else none

unfoldable pub sequence : AgentRun → Option ℕ
sequence run = at_least_one (parse_int32 (annotation sequence_annotation_key run))

abbrev equal_to : Time → Option Time → Bool
equal_to t none = false
equal_to t (some u) = u == t

pub represents_slot : TimeCodec → AgentRun → Time → Bool
represents_slot c run t = equal_to t (slot c run)

pub map_get-map_set :
    {V : Type 0} (k j : Text) (v : V) (m : List (Text × V))
    → map_get j (map_set k v m) ≡ (if k == j then some v else map_get j m)
unfolding map_get map_set
map_get-map_set k j v [] = refl
map_get-map_set k j v ((i, w) ∷ m) = elim (Bool-cases (i == k)) [
  | inl e ↦ rw e (rw (eq_of_beq i k e) (ground arith))
  | inr e ↦ rw e (elim (Bool-cases (k == j)) [
    | inl q ↦ rw (map_get-map_set k j v m, q) (rw (← eq_of_beq k j q) (rw e))
    | inr q ↦ rw (map_get-map_set k j v m, q)
  ])
]

stamped_slot :
    (c : TimeCodec) (run : AgentRun) (t : Time) (n : ℕ)
    → map_get slot_annotation_key (set_metadata c run t n).annotations ≡ some (c.format t)
unfolding set_metadata list_beq
stamped_slot c run t n =
    map_get-map_set sequence_annotation_key slot_annotation_key (show_nat n)
      (map_set slot_annotation_key (c.format t) run.annotations)
    ∙ map_get-map_set slot_annotation_key slot_annotation_key (c.format t) run.annotations

stamped_sequence :
    (c : TimeCodec) (run : AgentRun) (t : Time) (n : ℕ)
    → map_get sequence_annotation_key (set_metadata c run t n).annotations ≡ some (show_nat n)
unfolding set_metadata list_beq
stamped_sequence c run t n =
    map_get-map_set sequence_annotation_key sequence_annotation_key (show_nat n)
      (map_set slot_annotation_key (c.format t) run.annotations)

-- For a slot whose printed time parses to the slot without the fraction of its second, as RFC 3339 does
-- up to the year 9999, and for a sequence number from 1 to 2147483647: what SetMetadata stamps is what
-- Slot, to the second, and Sequence read back, and the stamped run represents exactly the slot without
-- the fraction of its second.
pub slot-set_metadata :
    (c : TimeCodec) (run : AgentRun) (t : Time) (n : ℕ)
    → ReadsBack c t
    → 1 ≤ n
    → n ≤ max_int32
    → (slot c (set_metadata c run t n) ≡ some (t - t % nanos_per_second))
      × (sequence (set_metadata c run t n) ≡ some n)
      × ((u : Time)
          → represents_slot c (set_metadata c run t n) u ≡ (t - t % nanos_per_second == u))
unfolding slot sequence represents_slot
slot-set_metadata c run t n back lo hi =
    let s : slot c (set_metadata c run t n) ≡ some (t - t % nanos_per_second) =
      ap (λ o. c.parse (or_empty o)) (stamped_slot c run t n) ∙ back in
    (
      s,
      ap (λ o. at_least_one (parse_int32 (or_empty o))) (stamped_sequence c run t n)
          ∙ ap at_least_one (parse-show_nat n hi)
          ∙ ground arith,
      λ u. ap (equal_to u) s,
    )
