-- ===== src/PodBuilder/Labels.antt =====
-- The names of Pods as DNS labels.
use kontext.Prelude.{
  ℕ, zero, suc, ◌-◌, ◌≤◌, ◌≡◌, ◌≢◌, refl, ◌∙◌, inl, inr, Bool, true, false, not, [], ◌∷◌, ◌++◌,
  Text, text, arith, leb, leb→le, length, take, length-append, length-take, ◌==◌, nat_eq, list_eq,
  list_beq, Bool-cases, to_lower, if◌then◌else◌,
}
use kontext.Schedule.RunNames.{drop_dash, trim_dashes, trim_dashes_shorter}
use kontext.PodBuilder.Names.{
  is_name_char, replace_invalid, trim_left_dashes, trim_both, or_run, cut, sanitized_run_name,
  pod_name_for_run, legacy_pod_name_for_run,
}

-- Lower-case letters, digits and dashes.
abbrev pub AllNameChars : Text → Type 0
AllNameChars [] = Unit
AllNameChars (c ∷ s) = (is_name_char c ≡ true) × AllNameChars s

abbrev pub ends_in_dash : Text → Bool
ends_in_dash [] = false
ends_in_dash (c ∷ []) = c == b'-'
ends_in_dash (c ∷ d ∷ s) = ends_in_dash (d ∷ s)

-- A DNS label that begins with a letter.
pub record IsLabel (name : Text) : Type 0 where
  pub short : length name ≤ 63
  pub chars : AllNameChars name
  pub begins : (c : ℕ) × (s : Text) × (name ≡ c ∷ s) × (b'a' ≤ c) × (c ≤ b'z')
  pub ends : ends_in_dash name ≡ false

-- What is known of hexadecimal digests cut to eight characters.
pub record IsHash (hash8 : Text → Text) : Type 0 where
  pub size : (s : Text) → length (hash8 s) ≡ 8
  pub hex : (s : Text) → AllNameChars (hash8 s)
  pub last : (s : Text) → ends_in_dash (hash8 s) ≡ false

pub append-AllNameChars : (s t : Text) → AllNameChars s → AllNameChars t → AllNameChars (s ++ t)
append-AllNameChars [] t hs ht = ht
append-AllNameChars (c ∷ s) t hs ht = (hs.0, append-AllNameChars s t hs.1 ht)

pub take-AllNameChars : (n : ℕ) (s : Text) → AllNameChars s → AllNameChars (take n s)
take-AllNameChars zero s h = tt
take-AllNameChars (suc n) [] h = tt
take-AllNameChars (suc n) (c ∷ s) h = (h.0, take-AllNameChars n s h.1)

if-AllNameChars :
    (b : Bool) (s t : Text)
    → (b ≡ true → AllNameChars s)
    → (b ≡ false → AllNameChars t)
    → AllNameChars (if b then s else t)
if-AllNameChars true s t hs ht = hs refl
if-AllNameChars false s t hs ht = ht refl

replace_invalid-AllNameChars : (b : Bool) (s : Text) → AllNameChars (replace_invalid b s)
unfolding replace_invalid
replace_invalid-AllNameChars b [] = tt
replace_invalid-AllNameChars b (c ∷ s) =
    let rest = replace_invalid-AllNameChars (not (is_name_char c)) s in
    if-AllNameChars (is_name_char c) _ _ (λ e. (e, rest))
      λ e. if-AllNameChars b _ _ (λ _. rest) λ _. (refl, rest)

trim_left-AllNameChars : (s : Text) → AllNameChars s → AllNameChars (trim_left_dashes s)
unfolding trim_left_dashes
trim_left-AllNameChars [] h = tt
trim_left-AllNameChars (c ∷ s) h = elim (Bool-cases (c == b'-')) [
  | inl e ↦ rw e (trim_left-AllNameChars s h.1)
  | inr e ↦ rw e h
]

drop_dash-AllNameChars :
    (c : ℕ) (s : Text) → is_name_char c ≡ true → AllNameChars s → AllNameChars (drop_dash c s)
drop_dash-AllNameChars c [] hc hs = elim (Bool-cases (c == b'-')) [
  | inl e ↦ rw e tt
  | inr e ↦ rw e (hc, tt)
]
drop_dash-AllNameChars c (d ∷ s) hc hs = (hc, hs)

pub trim_dashes-AllNameChars : (s : Text) → AllNameChars s → AllNameChars (trim_dashes s)
unfolding trim_dashes
trim_dashes-AllNameChars [] h = tt
trim_dashes-AllNameChars (c ∷ s) h =
    drop_dash-AllNameChars c (trim_dashes s) h.0 (trim_dashes-AllNameChars s h.1)

or_run-AllNameChars : (s : Text) → AllNameChars s → AllNameChars (or_run s)
unfolding list_beq
or_run-AllNameChars [] h = (refl, (refl, (refl, tt)))
or_run-AllNameChars (c ∷ s) h = h

drop_dash-ends : (c : ℕ) (s : Text) → ends_in_dash s ≡ false → ends_in_dash (drop_dash c s) ≡ false
drop_dash-ends c [] h = elim (Bool-cases (c == b'-')) [ inl e ↦ rw e refl | inr e ↦ rw e e ]
drop_dash-ends c (d ∷ s) h = h

trim_dashes-ends : (s : Text) → ends_in_dash (trim_dashes s) ≡ false
unfolding trim_dashes
trim_dashes-ends [] = refl
trim_dashes-ends (c ∷ s) = drop_dash-ends c (trim_dashes s) (trim_dashes-ends s)

or_run-ends : (s : Text) → ends_in_dash s ≡ false → ends_in_dash (or_run s) ≡ false
unfolding list_beq
or_run-ends [] h = refl
or_run-ends (c ∷ s) h = h

pub append-ends : (s : Text) (c : ℕ) (t : Text) → ends_in_dash (s ++ c ∷ t) ≡ ends_in_dash (c ∷ t)
append-ends [] c t = refl
append-ends (d ∷ []) c t = refl
append-ends (d ∷ e ∷ s) c t = append-ends (e ∷ s) c t

sanitized-AllNameChars : (s : Text) → AllNameChars (sanitized_run_name s)
unfolding sanitized_run_name
sanitized-AllNameChars s = or_run-AllNameChars _ (
    trim_dashes-AllNameChars _
      (trim_left-AllNameChars _ (replace_invalid-AllNameChars false (to_lower s))))

sanitized-ends : (s : Text) → ends_in_dash (sanitized_run_name s) ≡ false
unfolding sanitized_run_name
sanitized-ends s = or_run-ends _ (trim_dashes-ends _)

-- Behind the prefix stands what does not end in a dash.
prefixed-IsLabel :
    (s : Text)
    → AllNameChars s
    → ends_in_dash s ≡ false
    → s ≢ []
    → length s ≤ 59
    → IsLabel (text "run-" ++ s)
prefixed-IsLabel [] h e ne n = absurd (ne refl)
prefixed-IsLabel (c ∷ s) h e ne n = record {
  short = omega (arith, n);
  chars = (refl, (refl, (refl, (refl, h))));
  begins = (b'r', text "un-" ++ c ∷ s, refl, omega arith, omega arith);
  ends = e;
}

or_run-nonempty : (s : Text) → or_run s ≢ []
unfolding list_beq
or_run-nonempty [] h = cc h
or_run-nonempty (c ∷ s) h = cc h

or_run-length : (n : ℕ) (s : Text) → 3 ≤ n → length s ≤ n → length (or_run s) ≤ n
unfolding list_beq
or_run-length n [] h l = h
or_run-length n (c ∷ s) h l = l

trim_left-length : (s : Text) → length (trim_left_dashes s) ≤ length s
unfolding trim_left_dashes
trim_left-length [] = omega arith
trim_left-length (c ∷ s) = elim (Bool-cases (c == b'-')) [
  | inl e ↦ rw e (omega (arith, trim_left-length s))
  | inr e ↦ rw e (omega arith)
]

dash_append-nonempty : (s t : Text) → s ++ b'-' ∷ t ≢ []
dash_append-nonempty [] t h = cc h
dash_append-nonempty (c ∷ s) t h = cc h

dash_hash-ends :
    (h : Text) → length h ≡ 8 → ends_in_dash h ≡ false → ends_in_dash (b'-' ∷ h) ≡ false
dash_hash-ends [] l e = absurd (omega (arith, l))
dash_hash-ends (c ∷ h) l e = e

pod_name_for_run-IsLabel :
    (hash8 : Text → Text) (run_name : Text)
    → IsHash hash8
    → IsLabel (pod_name_for_run hash8 run_name)
unfolding pod_name_for_run sanitized_run_name
pod_name_for_run-IsLabel hash8 run_name h =
    let safe = sanitized_run_name run_name in
    let hash = hash8 run_name in
    let front = trim_dashes (take (63 - 4 - 1 - length hash) safe) in
    let hashed : IsLabel (text "run-" ++ (front ++ b'-' ∷ hash)) =
      prefixed-IsLabel (front ++ b'-' ∷ hash)
        (append-AllNameChars front (b'-' ∷ hash)
          (trim_dashes-AllNameChars _ (take-AllNameChars _ safe (sanitized-AllNameChars run_name)))
          (refl, h.hex run_name))
        (append-ends front b'-' hash ∙ dash_hash-ends hash (h.size run_name) (h.last run_name))
        (dash_append-nonempty front hash)
        (rw (length-append front (b'-' ∷ hash)) (
          omega (
            arith,
            h.size run_name,
            trim_dashes_shorter (take (63 - 4 - 1 - length hash) safe),
            length-take (63 - 4 - 1 - length hash) safe,
          ))) in
    elim (Bool-cases (leb (length safe) 56)) [
      | inl b ↦ rw b (
          prefixed-IsLabel safe (sanitized-AllNameChars run_name) (sanitized-ends run_name)
            (or_run-nonempty _) (omega (arith, leb→le (length safe) 56 b)))
      | inr b ↦ rw b hashed
    ]

cut-length : (s : Text) → length (cut s) ≤ 56
cut-length s = elim (Bool-cases (leb (length s) 56)) [
  | inl b ↦ rw b (leb→le _ _ b)
  | inr b ↦ rw b (omega (arith, length-take 56 s))
]

cut-AllNameChars : (s : Text) → AllNameChars s → AllNameChars (cut s)
cut-AllNameChars s h =
    if-AllNameChars (leb (length s) 56) _ _ (λ _. h) (λ _. take-AllNameChars 56 s h)

legacy_pod_name_for_run-IsLabel : (run_name : Text) → IsLabel (legacy_pod_name_for_run run_name)
unfolding legacy_pod_name_for_run
legacy_pod_name_for_run-IsLabel run_name =
    let s = sanitized_run_name run_name in
    prefixed-IsLabel (or_run (trim_both (cut s)))
      (or_run-AllNameChars _ (
        trim_dashes-AllNameChars _
          (trim_left-AllNameChars _ (cut-AllNameChars s (sanitized-AllNameChars run_name)))))
      (or_run-ends _ (trim_dashes-ends _)) (or_run-nonempty _)
      (or_run-length 59 _ (omega arith) (
        omega (
          arith,
          trim_dashes_shorter (trim_left_dashes (cut s)),
          trim_left-length (cut s),
          cut-length s,
        )))

-- The Pod name of any run, and its legacy Pod name, are DNS labels: at most 63 characters, lower-case
-- letters, digits and dashes, of which the first is a letter and the last not a dash, if the hash has
-- eight such characters and does not end in a dash.
pub pod_names-IsLabel :
    (hash8 : Text → Text) (run_name : Text)
    → IsHash hash8
    → IsLabel (pod_name_for_run hash8 run_name) × IsLabel (legacy_pod_name_for_run run_name)
pod_names-IsLabel hash8 run_name h =
    (pod_name_for_run-IsLabel hash8 run_name h, legacy_pod_name_for_run-IsLabel run_name)
