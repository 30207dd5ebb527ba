-- ===== src/Schedule/Labels.antt =====
-- The names of scheduled runs (RunName of internal/scheduler/scheduler.go) as DNS labels.
use kontext.Prelude.{
  ℕ, zero, suc, ◌-◌, ◌+◌, ◌≤◌, ◌≡◌, refl, sym, ◌∙◌, ap, inl, inr, false, true, [], ◌∷◌, ◌++◌, Text,
  arith, leb, length, take, length-append, ◌==◌, nat_eq, Bool-cases, pos, show_int, show_nat,
  IsDigits, digit, show_nat-IsDigits, show_nat_head,
}
use mathlib.Core.Path.{subst}
use mathlib.Core.List.{append_assoc}
use kontext.Api.{Time}
use kontext.Schedule.RunNames.{
  unix, max_name, drop_dash, trim_dashes, run_name, IsNearSlot, length-suffix, length-run_name,
}
use kontext.PodBuilder.Names.{is_name_char}
use kontext.PodBuilder.Labels.{
  AllNameChars, ends_in_dash, IsHash, append-AllNameChars, take-AllNameChars,
  trim_dashes-AllNameChars, append-ends,
}

-- The first byte is there, and no dash.
abbrev pub Begins : Text → Type 0
Begins name = (c : ℕ) × (s : Text) × (name ≡ c ∷ s) × ((c == b'-') ≡ false)

-- A DNS label: at most 63 lower-case letters, digits and dashes, of which neither the first nor the last
-- is a dash.
pub record IsDnsLabel (name : Text) : Type 0 where
  pub short : length name ≤ 63
  pub chars : AllNameChars name
  pub begins : Begins name
  pub ends : ends_in_dash name ≡ false

digit_char : (c : ℕ) → 48 ≤ c → c ≤ 57 → is_name_char c ≡ true
digit_char c lo hi = ground arith

digits-AllNameChars : (d : Text) → IsDigits d → AllNameChars d
digits-AllNameChars [] h = tt
digits-AllNameChars (c ∷ d) (digit lo hi h) = (digit_char c lo hi, digits-AllNameChars d h)

no_dash_digit : (c : ℕ) → 48 ≤ c → (c == b'-') ≡ false
no_dash_digit c lo = ground arith

digits-ends : (d : Text) → IsDigits d → ends_in_dash d ≡ false
digits-ends [] h = refl
digits-ends (c ∷ []) (digit lo hi h) = no_dash_digit c lo
digits-ends (c ∷ e ∷ d) (digit lo hi h) = digits-ends (e ∷ d) h

dash_number-ends : (n : ℕ) → ends_in_dash (b'-' ∷ show_nat n) ≡ false
dash_number-ends n =
    let (c, r, e, lo, hi) = show_nat_head n in
    ap (λ t. ends_in_dash (b'-' ∷ t)) e
    ∙ ap ends_in_dash (sym e)
    ∙ digits-ends (show_nat n) (show_nat-IsDigits n)

append-Begins : (s t : Text) → Begins s → Begins (s ++ t)
append-Begins s t (c, r, e, h) = (c, r ++ t, ap (λ x. x ++ t) e, h)

trim_dashes-Begins : (c : ℕ) (s : Text) → (c == b'-') ≡ false → Begins (trim_dashes (c ∷ s))
unfolding trim_dashes
trim_dashes-Begins c s h = dropped (trim_dashes s)
  where
    dropped : (t : Text) → Begins (drop_dash c t)
    dropped [] = rw h (c, [], refl, h)
    dropped (d ∷ t) = (c, d ∷ t, refl, h)

take-Begins : (k : ℕ) (a : Text) → 1 ≤ k → Begins a → Begins (trim_dashes (take k a))
take-Begins zero a lo b = absurd (omega arith)
take-Begins (suc k) [] lo (c, s, e, h) = absurd (cc e)
take-Begins (suc k) (d ∷ a) lo (c, s, e, h) =
    let same : c ≡ d = ground arith in trim_dashes-Begins d (take k a) (rw (← same) h)

-- All of a label but its length.
record IsWord (name : Text) : Type 0 where
  chars : AllNameChars name
  begins : Begins name
  ends : ends_in_dash name ≡ false

numbered-IsWord : (s : Text) (n : ℕ) → AllNameChars s → Begins s → IsWord (s ++ b'-' ∷ show_nat n)
numbered-IsWord s n chars begins = record {
  chars =
      append-AllNameChars s (b'-' ∷ show_nat n) chars
        (refl, digits-AllNameChars (show_nat n) (show_nat-IsDigits n));
  begins = append-Begins s (b'-' ∷ show_nat n) begins;
  ends = append-ends s b'-' (show_nat n) ∙ dash_number-ends n;
}

run_name-IsWord :
    (hash8 : Text → Text) (a : Text) (slot : Time) (n : ℕ)
    → AllNameChars a
    → Begins a
    → IsHash hash8
    → unix slot ≡ pos n
    → length (show_nat n) ≤ 19
    → IsWord (run_name hash8 a slot)
unfolding run_name show_int
run_name-IsWord hash8 a slot n chars begins hash e near =
    let s = b'-' ∷ show_nat n in
    let hs = b'-' ∷ (hash8 a ++ s) in
    let t = trim_dashes (take (max_name - length hs) a) in
    let room : 1 ≤ max_name - length hs =
      omega (arith, near, hash.size a, length-append (hash8 a) s) in
    elim (Bool-cases (leb (length a + length s) max_name)) [
      | inl b ↦ rw (e, b) (numbered-IsWord a n chars begins)
      | inr b ↦
          rw (e, b)
            (subst IsWord (append_assoc t (b'-' ∷ hash8 a) s) (
              numbered-IsWord (t ++ b'-' ∷ hash8 a) n
                (append-AllNameChars t (b'-' ∷ hash8 a)
                  (trim_dashes-AllNameChars _ (take-AllNameChars _ a chars)) (refl, hash.hex a))
                (append-Begins t (b'-' ∷ hash8 a) (take-Begins _ a room begins))))
    ]

near_digits : (slot : Time) (n : ℕ) → unix slot ≡ pos n → IsNearSlot slot → length (show_nat n) ≤ 19
unfolding show_int
near_digits slot n e near = rw e at (length-suffix slot near)

-- The name of a scheduled run is a DNS label, where the Agent's name consists of lower-case letters, digits
-- and dashes and does not begin with a dash, the hash of every text has eight such characters and does
-- not end in a dash, and the slot lies from 1970 on and less than 10 ^ 18 seconds behind the start of
-- year 1. The Agent's name may have any length.
pub run_name-IsDnsLabel :
    (hash8 : Text → Text) (agent_name : Text) (slot : Time) (n : ℕ)
    → AllNameChars agent_name
    → Begins agent_name
    → IsHash hash8
    → unix slot ≡ pos n
    → IsNearSlot slot
    → IsDnsLabel (run_name hash8 agent_name slot)
run_name-IsDnsLabel hash8 a slot n chars begins hash e near =
    let w = run_name-IsWord hash8 a slot n chars begins hash e (near_digits slot n e near) in
    record {
      short = length-run_name hash8 a slot hash.size near;
      chars = w.chars;
      begins = w.begins;
      ends = w.ends;
    }
