-- ===== src/Schedule/RunNames.antt =====
-- internal/scheduler/scheduler.go: RunName. The first eight hexadecimal digits of the SHA-256 of a
-- name are a parameter.
use kontext.Prelude.{
  ℕ, suc, ◌+◌, ◌-◌, ◌*◌, ◌/◌, ◌^◌, ◌≤◌, ◌<◌, ◌≡◌, sym, ◌∙◌, inl, inr, [], ◌∷◌, ◌++◌, Text, arith,
  leb, leb→le, length, take, length-append, length-take, ◌==◌, nat_eq, Bool-cases, ℤ, pos, sub_ℕ,
  show_int, show_nat, length-show_nat, IsDigits, digit, show_nat-IsDigits, show_nat_injective,
  if◌then◌else◌,
}
use mathlib.Core.List.{append_assoc}
use kontext.Api.{Time, nanos_per_second}

-- Seconds from the start of year 1 to 1970.
abbrev pub unix_epoch : ℕ
unix_epoch = 62135596800

-- slot.Unix().
unfoldable pub unix : Time → ℤ
unix t = sub_ℕ (t / nanos_per_second) unix_epoch

abbrev pub max_name : ℕ
max_name = 63

abbrev pub drop_dash : ℕ → Text → Text
drop_dash c [] = if c == b'-' then [] else c ∷ []
drop_dash c (d ∷ t) = c ∷ d ∷ t

-- strings.TrimRight(s, "-").
unfoldable pub trim_dashes : Text → Text
trim_dashes [] = []
trim_dashes (c ∷ s) = drop_dash c (trim_dashes s)

unfoldable pub run_name : (Text → Text) → Text → Time → Text
run_name hash8 agent_name slot =
    let slot_suffix = b'-' ∷ show_int (unix slot) in
    let hash_suffix = b'-' ∷ (hash8 agent_name ++ slot_suffix) in
    if leb (length agent_name + length slot_suffix) max_name
    then agent_name ++ slot_suffix
    else trim_dashes (take (max_name - length hash_suffix) agent_name) ++ hash_suffix

drop_dash_shorter : (c : ℕ) (t : Text) → length (drop_dash c t) ≤ suc (length t)
drop_dash_shorter c [] = ground arith
drop_dash_shorter c (d ∷ t) = omega arith

pub trim_dashes_shorter : (s : Text) → length (trim_dashes s) ≤ length s
unfolding trim_dashes
trim_dashes_shorter [] = omega arith
trim_dashes_shorter (c ∷ s) =
    omega (arith, drop_dash_shorter c (trim_dashes s), trim_dashes_shorter s)

-- A slot up to year 3 * 10 ^ 10: its seconds have 18 digits at most.
abbrev pub IsNearSlot : Time → Type 0
IsNearSlot slot = slot < nanos_per_second * 10 ^ 18

pub length-suffix : (slot : Time) → IsNearSlot slot → length (show_int (unix slot)) ≤ 19
unfolding show_int unix
length-suffix slot h = elim (Bool-cases (leb unix_epoch (slot / nanos_per_second))) [
  | inl e ↦
      rw e (omega (arith, length-show_nat 17 (slot / nanos_per_second - unix_epoch) (omega arith)))
  | inr e ↦ rw e (
      omega
        (arith, length-show_nat 17 (suc (unix_epoch - slot / nanos_per_second - 1)) (omega arith)))
]

-- The name of a scheduled run has at most 63 bytes, whatever the Agent's name, where the hash of every
-- text has eight bytes and the slot lies less than 10 ^ 18 seconds behind the start of year 1.
pub length-run_name :
    (hash8 : Text → Text) (agent_name : Text) (slot : Time)
    → ((s : Text) → length (hash8 s) ≡ 8)
    → IsNearSlot slot
    → length (run_name hash8 agent_name slot) ≤ 63
unfolding run_name
length-run_name hash8 a slot h near =
    let s = b'-' ∷ show_int (unix slot) in
    let hs = b'-' ∷ (hash8 a ++ s) in
    let p = take (max_name - length hs) a in
    elim (Bool-cases (leb (length a + length s) max_name)) [
      | inl e ↦ rw e (rw (length-append a s) (leb→le (length a + length s) max_name e))
      | inr e ↦ rw e (
          rw (length-append (trim_dashes p) hs) (
            omega (
              arith,
              h a,
              length-suffix slot near,
              length-append (hash8 a) s,
              trim_dashes_shorter p,
              length-take (max_name - length hs) a,
            )))
    ]

no_dash : (q e : Text) → IsDigits (q ++ b'-' ∷ e) → ⊥
no_dash [] e (digit lo hi d) = omega arith
no_dash (c ∷ q) e (digit lo hi d) = no_dash q e d

-- Behind its last dash a text is determined.
last_dash : (p q d e : Text) → IsDigits d → IsDigits e → p ++ b'-' ∷ d ≡ q ++ b'-' ∷ e → d ≡ e
last_dash [] [] d e hd he h = ground arith
last_dash [] (c ∷ q) d e hd he h =
    let same : d ≡ q ++ b'-' ∷ e = ground arith in absurd (no_dash q e (rw same at hd))
last_dash (c ∷ p) [] d e hd he h =
    let same : e ≡ p ++ b'-' ∷ d = ground arith in absurd (no_dash p d (rw same at he))
last_dash (c ∷ p) (c' ∷ q) d e hd he h = last_dash p q d e hd he (ground arith)

run_name_end :
    (hash8 : Text → Text) (a : Text) (slot : Time) (n : ℕ)
    → unix slot ≡ pos n
    → (p : Text) × (run_name hash8 a slot ≡ p ++ b'-' ∷ show_nat n)
unfolding run_name show_int
run_name_end hash8 a slot n e =
    let s = b'-' ∷ show_nat n in
    let hs = b'-' ∷ (hash8 a ++ s) in
    let t = trim_dashes (take (max_name - length hs) a) in
    elim (Bool-cases (leb (length a + length s) max_name)) [
      | inl b ↦ (a, rw (e, b))
      | inr b ↦ (t ++ b'-' ∷ hash8 a, rw (e, b) (sym (append_assoc t (b'-' ∷ hash8 a) s)))
    ]

-- From 1970 on, runs of the same name are runs of the same slot, to the second, even if they
-- belong to different Agents and whatever the hash.
pub run_name_injective :
    (hash8 : Text → Text) (a b : Text) (s t : Time) (m n : ℕ)
    → unix s ≡ pos m
    → unix t ≡ pos n
    → run_name hash8 a s ≡ run_name hash8 b t
    → m ≡ n
run_name_injective hash8 a b s t m n em en h =
    let (p, ep) = run_name_end hash8 a s m em in
    let (q, eq) = run_name_end hash8 b t n en in
    show_nat_injective m n (
      last_dash p q (show_nat m) (show_nat n) (show_nat-IsDigits m) (show_nat-IsDigits n)
        (sym ep ∙ h ∙ eq))
